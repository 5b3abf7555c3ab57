-- ===== src/Life.antt =====
-- The life of an SPD across the services spd and approval: what any order of their requests, of
-- deliveries of the event spd.submitted and of requests to the other services can lead to.
pub mod Tables
pub mod Effect
pub mod Bystander
pub mod Others
pub mod Step
pub mod Outcomes
pub mod Delivery
pub mod Sending
pub mod Sound
pub mod Preserved
pub mod Decision
pub mod Reach
pub mod Flow
pub mod Answers
pub mod Tests
