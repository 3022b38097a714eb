-- ===== src/Server/Listen/Stream/Recover.antt =====
-- What an overflow of its subscription does to a Listen stream (internal/server/listen.go).
use embyr.Sqlite.Adapter.{Adapter}
use embyr.Server.Listen.Stream.{Stream}
