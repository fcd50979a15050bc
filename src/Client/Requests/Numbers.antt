-- ===== src/Client/Requests/Numbers.antt =====
-- The numbers of requests: src/service/client.rs.
use tower_lsp.Base.{ℕ, zero, suc, ◌+◌, ◌%◌, ◌<◌, ◌≡◌, ◌↔◌, ap, arith}
use tower_lsp.Base.Int.{pos}
use tower_lsp.JsonRpc.RequestId.{RequestId, number}
use tower_lsp.JsonRpc.Response.{Response}
use tower_lsp.Client.Oneshot.{OneshotApi}
use tower_lsp.Client.Requests.{Client, u32_mod, next_request_id}

module _ {Value : Type 0} {api : OneshotApi (Response Value)} where
  -- The client after `n` calls of `next_request_id`.
  abbrev pub advance : ℕ → Client api → Client api
  advance zero c = c
  advance (suc n) c = (next_request_id (advance n c)).1

  -- The identifier that the call after `n` others gives.
  abbrev pub nth_id : ℕ → Client api → RequestId
  nth_id n c = (next_request_id (advance n c)).0

  advance-request_id :
      (n : ℕ) (c : Client api)
      → c.request_id < u32_mod
      → (advance n c).request_id ≡ (c.request_id + n) % u32_mod
  unfolding next_request_id
  advance-request_id zero c h = omega arith
  advance-request_id (suc n) c h = omega (arith, advance-request_id n c h)

  -- From any value of the 32-bit counter on, two calls of `next_request_id` give the same
  -- identifier exactly if their places are congruent modulo 2^32. So any 2^32 calls in a row give
  -- distinct ones, and then they repeat.
  pub nth_id_iff :
      (i j : ℕ) (c : Client api)
      → c.request_id < u32_mod
      → (nth_id i c ≡ nth_id j c) ↔ (i % u32_mod ≡ j % u32_mod)
  unfolding next_request_id
  nth_id_iff i j c h =
      let at_i = advance-request_id i c h in
      let at_j = advance-request_id j c h in
      (
        λ e.
            let same : (advance i c).request_id ≡ (advance j c).request_id = cc in
            omega (arith, same, at_i, at_j),
        λ e.
            let same : (advance i c).request_id ≡ (advance j c).request_id =
              omega (arith, e, at_i, at_j) in
            ap (λ k. number (pos k)) same,
      )
