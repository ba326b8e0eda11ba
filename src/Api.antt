-- ===== src/Api.antt =====
-- internal/api: the handlers of the requests on a gNB and its UEs.
pub mod Types
pub mod Codec
pub mod Action
pub mod Exchange
pub mod Registration
pub mod Authentication
pub mod Connection
pub mod Sessions
pub mod Handover
pub mod Dispatch
pub mod Await
pub mod Stations
pub mod Torn
pub mod Users
pub mod UsersKept
pub mod AwaitKeeps
pub mod Keeps
pub mod Steps
pub mod Invariant
pub mod HandlersKeep
pub mod SessionsKeep
pub mod Dispatched
pub mod Decodes
pub mod StationTypes
pub mod Station
pub mod StationDispatch
pub mod StationKeeps
mod Fixtures
mod Tests
mod UserTests
