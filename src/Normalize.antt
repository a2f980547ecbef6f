-- ===== src/Normalize.antt =====
-- layers/normalize.rs. The body, its size hint (the lower bound, and the size if it is exact), the
-- parsing of a method and the test of a status are parameters.
use ftl.Prelude.{
  ℕ, Bool, true, false, ◌&&◌, ◌||◌, Option, none, some, is_some, leb, ltb, ◌==◌, if◌then◌else◌,
}
use ftl.Http.{Text, Method, head, connect}
use ftl.Decimal.{print}
pub mod Replies

-- What the layer reads and writes of a response; the other headers pass.
pub record Response (B : Type 0) : Type 0 where
  pub status : ℕ
  pub content_length : Option Text
  pub transfer_encoding : Bool
  pub x_clacks_overhead : Bool
  pub body : B

pub data MiniMethod : Type 0 where
  mini_head mini_connect mini_other : MiniMethod

unfoldable pub mini_method : Method → MiniMethod
mini_method head = mini_head
mini_method connect = mini_connect
mini_method _ = mini_other

-- `x-http-method-override`, if it is there and names a method.
unfoldable pub method_override : {V : Type 0} → (V → Option Method) → Option V → Method → Method
method_override from_bytes none m = m
method_override from_bytes (some v) m = elim (from_bytes v) [ some n ↦ n | none ↦ m ]

module _ {B : Type 0} (empty : B) (lower : B → ℕ) (exact : B → Option ℕ)
    (is_success : ℕ → Bool) where
  unfoldable pub set_content_length : Response B → Response B
  set_content_length resp = elim resp.content_length [
    | some _ ↦ resp
    | none ↦ elim (exact resp.body) [
      | some size ↦ record resp { content_length = some (print size) }
      | none ↦ resp
    ]
  ]

  -- The first part of the closure: CONNECT, or the length.
  unfoldable pub check_connect : MiniMethod → Response B → Response B
  unfolding set_content_length
  check_connect mini_connect resp =
      if is_success resp.status
      then (if is_some resp.content_length || resp.transfer_encoding || ltb 0 (lower resp.body)
          then record resp { body = empty }
          else resp)
      else set_content_length resp
  check_connect _ resp = set_content_length resp

  abbrev empty_head : MiniMethod → Response B → Response B
  empty_head mini_head resp = record resp { body = empty }
  empty_head _ resp = resp

  -- What `call` makes of the inner service's response to a request by the method.
  unfoldable pub normalize : Method → Response B → Response B
  unfolding check_connect mini_method
  normalize method resp =
      record (empty_head (mini_method method) (check_connect (mini_method method) resp)) {
        x_clacks_overhead = true;
      }
