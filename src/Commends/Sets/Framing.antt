-- ===== src/Commends/Sets/Framing.antt =====
-- Each handler of src/commends/set.rs appends one whole reply to the output.
use flash_db.Store.{Store}
use flash_db.Store.Sets.Combine.{retain}
use flash_db.Store.Sets.Combine
