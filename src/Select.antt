-- ===== src/Select.antt =====
-- The echo servers of source/select.
mod Server
mod Echo
mod Owes
mod Queues
mod Echoes
mod Once
mod Listed
mod Outputs
mod Drain
mod Leaving
mod Poll
mod Sound
mod Agree
mod Hanging
mod PollSafe
mod PollLoop
mod Examples
