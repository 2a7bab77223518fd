-- ===== src/Actions.antt =====
-- convert2rhel/actions/__init__.py: the framework in which the steps of a conversion run.
pub mod Message
pub mod Action
pub mod Order
pub mod Stage
pub mod Outcomes
mod Tests
