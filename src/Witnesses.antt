-- ===== src/Witnesses.antt =====
-- The theorems at concrete inputs.
mod Stored
mod Running
mod Chatting
mod Joining
mod Erranding
mod Driving
mod Reminding
mod Ticking
