-- ===== src/Tests.antt =====
-- Runs of the models at small inputs, and the theorems at inputs that meet their hypotheses.
mod Lists
mod Services
mod KeyRuns
mod Storage
mod Windows
mod Starts
mod Dialogs
mod Repositories
mod Texts
mod Marshalling
mod Containers
mod Environments
mod Despatchers
mod Crypto
