-- ===== src/Tests.antt =====
-- Concrete runs of the components.
mod Buffers
mod Rings
mod Messages
mod Calls
mod Pools
mod Waits
mod Queues
mod Timers
mod Servers
mod Examples
mod Connections
mod Files
mod Logs
mod Offices
mod Workers
mod Registrations
