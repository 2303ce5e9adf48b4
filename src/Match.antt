-- ===== src/Match.antt =====
-- How a rule is matched with a request: labels (src/plugins/router/rule/helper.rs) and the index of
-- APIs (src/traffic/matcher.rs).
pub mod Label
pub mod Trie
pub mod Index
pub mod Entries
pub mod Tests
