-- ===== src/Examples.antt =====
-- A platform that meets the laws of the interfaces, and the theorems applied at concrete inputs.
mod Platform
mod Scheduler
mod StateMachine
mod Requests
mod Devices
mod Reservation
mod Supervisor
mod Alarms
mod Notifications
mod SidecarClient
mod Session
mod Polling
mod FleetDevice
