-- ===== src/Transport/Server.antt =====
-- The server before it runs: src/transport.rs.
use tower_lsp.Base.{ℕ}

abbrev default_max_concurrency : ℕ
default_max_concurrency = 4

pub record Server (I O L : Type 0) : Type 0 where
  pub stdin : I
  pub stdout : O
  pub loopback : L
  pub max_concurrency : ℕ

module _ {I O L : Type 0} where
  unfoldable pub new : I → O → L → Server I O L
  new stdin stdout socket = record {
    stdin = stdin;
    stdout = stdout;
    loopback = socket;
    max_concurrency = default_max_concurrency;
  }

  unfoldable pub concurrency_level : ℕ → Server I O L → Server I O L
  concurrency_level max s = record s { max_concurrency = max }
