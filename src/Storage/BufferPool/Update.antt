-- ===== src/Storage/BufferPool/Update.antt =====
-- pkg/storage/buffer_pool.go: a client changes a page that it has pinned, and gives it back dirty.
use laura_db.Prelude.{ℕ, List}
use laura_db.Prelude.Assoc.{Assoc}
use laura_db.Storage.Page.{Page}
use laura_db.Storage.DiskManager.{DiskManager}
use laura_db.Storage.BufferPool.{BufferPool}

-- The page after the client has written to it, before it is given back.
abbrev pub written : Page → (List ℕ → List ℕ) → Page
written p f = record p { bytes = f p.bytes }
