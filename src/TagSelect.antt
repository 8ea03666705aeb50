-- ===== src/TagSelect.antt =====
-- search/tagselect.py: the rules that choose the candidate tags of one repository.
pub mod Names
pub mod Lines
pub mod Order
pub mod Select
mod Tests
