-- ===== src/Domain.antt =====
-- app/domain/models.py: activities, the days that hold them and the weekly plan.
pub mod Activity
pub mod Day
pub mod Plan
