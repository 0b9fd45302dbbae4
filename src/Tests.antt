-- ===== src/Tests.antt =====
-- Runs of the modelled code at concrete inputs.
mod Memory
mod Fds
mod Sessions
mod Calls
mod Life
mod Settings
mod Start
mod Balance
mod Delivery
mod Channels
mod Dials
mod Budgets
mod Small
mod Sockets
mod Served
mod Answers
mod Handed
mod Closings
mod Beginnings
mod Orders
mod Layouts
