-- ===== src/JsonRpc/Router/Table.antt =====
-- The routing table: src/jsonrpc/router.rs.
use tower_lsp.Base.{
  String, ◌≡◌, inl, inr, Option, none, some, arith, ◌==◌, eq_iff, String_eq, if◌then◌else◌,
  Option-cases,
}
use tower_lsp.Base.Map.{get, get-insert}
use tower_lsp.JsonRpc.Router.{Router, method}

-- What a name stands for after a registration: a name that is taken keeps its first handler.
abbrev pub registered :
    {Service : Type 0} → String → Service → String → Option Service → Option Service
registered name handler j (some taken) = some taken
registered name handler j none = if name == j then some handler else none

module _ {S Service : Type 0} where
  -- After `method name handler` every name stands for what it stood for before, and `name`, if it
  -- was free, for `handler`: a registration never replaces a handler.
  pub get-method :
      (name j : String) (handler : Service) (r : Router S Service)
      → get j (method name handler r).methods ≡ registered name handler j (get j r.methods)
  unfolding method
  get-method name j handler r = elim (Option-cases (get name r.methods)) [
    | inl e ↦ rw (e, method) (ground (arith, get-insert name j handler r.methods, eq_iff name j))
    | inr (t, e) ↦ rw (e, method) (ground (arith, eq_iff name j))
  ]
