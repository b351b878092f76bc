-- ===== src/Ingestion.antt =====
-- backend/app/infrastructure/ingestion: the batches of images that become problems, with the items
-- cut out of them, the extraction of each item, the variants made of it and its submission.
pub mod Documents
pub mod Writes
pub mod Images
pub mod Items
pub mod Deletion
pub mod Submits
pub mod Variations
pub mod Requests
pub mod Work
pub mod History
pub mod Moves
pub mod Serial
pub mod Keeps
pub mod Stable
pub mod Sound
pub mod Invariant
pub mod Fencing
pub mod Only
pub mod Restore
pub mod Answers
pub mod Retrying
pub mod VariationWorker
pub mod Landing
pub mod Claimable
pub mod Admission
pub mod AdmittedOnce
pub mod Cleanup
pub mod Cleaning
pub mod Boxes
pub mod Inside
pub mod ExtractionWorker
pub mod Extraction
mod Examples
mod WorkerExamples
mod AdmissionExamples
mod CleaningExamples
