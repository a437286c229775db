-- ===== src/Listeners/Channels.antt =====
-- The channels after a stored connection was changed.
use secure_dialogues.Common.{List}
use secure_dialogues.Common.Maps.{text_key}
