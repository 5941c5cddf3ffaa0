-- ===== src/Examples.antt =====
-- The theorems at concrete values.
mod Values
mod CoreCases
mod PlanCases
mod DiskCases
mod VolumeCases
mod CentralCases
mod DirCases
mod UpdateCases
mod StorageCases
mod SchedulerCases
