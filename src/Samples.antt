-- ===== src/Samples.antt =====
-- Tests of the definitions on inputs that can be followed in the source, and every theorem at an
-- input that meets its hypotheses.
mod GraphSamples
mod SortedVecSamples
mod StringPoolSamples
mod SchedulerSamples
mod DependencyMapSamples
mod PathSamples
mod RobinHoodSamples
mod HashHexSamples
mod InstructionSamples
mod GlobSamples
