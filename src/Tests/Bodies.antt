-- ===== src/Tests/Bodies.antt =====
-- Runs of body/limited.rs, layers/limit_req_body.rs and layers/normalize.rs.
use ftl.Prelude.{
  ℕ, ◌≤◌, ◌<◌, ◌≡◌, ◌⊎◌, refl, Bool, false, ◌==◌, Option, none, some, List, [], ◌∷◌, Result, ok,
  err, arith,
}
use ftl.Http.{Text, get, head, post}
use ftl.Strings.{codes}
use ftl.Decimal.{print, value}
use ftl.Normalize.{
  Response, set_content_length, check_connect, mini_method, method_override, normalize,
}
use ftl.Normalize.Replies.{normalize-content_length}
use mathlib.Core.List.{Memᴰ}
use ftl.BodyLimit.{
  length_limit_error, data_frame, trailers, Poll, pending, finished, failed, ready, poll_frame,
  drain, limit, size_hint, limit_req_body,
}
use ftl.Bodies.{HttpBody, limited, full, polls}
use ftl.Bodies as Bodies
use ftl.Bodies.Limits.{limit-polls}
use ftl.Collected.{Collect, collect_all, read, bytes}
use ftl.Collected.Limits.{read-limit}
use ftl.Extract.Errors.{Error, body_error, bad_request}
use ftl.Extract.Errors.BodyError.{stream_aborted}
use ftl.Extract.Errors as Errors
use ftl.BodyLimit.Bounds.{delivered, drain_lem}

ran : Unit {0}
unfolding poll_frame drain delivered limit size_hint limit_req_body
ran = tt

-- Five bytes in two frames.
abbrev five : List Poll
five =
    ready (data_frame (1 ∷ 2 ∷ []))
    ∷ pending
    ∷ ready (data_frame (3 ∷ 4 ∷ 5 ∷ []))
    ∷ ready trailers
    ∷ finished
    ∷ []

drain_test :
    drain 4 five
    ≡ ready (data_frame (1 ∷ 2 ∷ []))
      ∷ pending
      ∷ failed length_limit_error
      ∷ ready trailers
      ∷ finished
      ∷ []
unfolding ran
drain_test = refl

drain_lem_example :
    (delivered (drain 4 five) ≤ 4)
    × (((delivered five ≤ 4) × (drain 4 five ≡ five))
        ⊎ ((4 < delivered five) × Memᴰ (failed length_limit_error) (drain 4 five)))
drain_lem_example = drain_lem 4 five

abbrev exact_hint : List Poll → ℕ × Option ℕ
unfolding delivered
exact_hint ps = (delivered ps, some (delivered ps))

-- A response of 12 bytes, whose body is its size.
abbrev twelve : Response ℕ
twelve = record {
  status = 200;
  content_length = none;
  transfer_encoding = false;
  x_clacks_overhead = false;
  body = 12;
}

abbrev success : ℕ → Bool
success s = s == 200

normalize_tests :
    ((normalize 0 (λ n. n) some success get twelve).content_length ≡ some (codes "12"))
    × ((normalize 0 (λ n. n) some success get twelve).body ≡ 12)
    × ((normalize 0 (λ n. n) some success head twelve).body ≡ 0)
    × (method_override (λ _. some head) (some tt) post ≡ head)
unfolding print set_content_length check_connect mini_method method_override normalize
normalize_tests = (refl, refl, refl, refl)

normalize-content_length_test :
    (text : Text) × ((normalize 0 (λ n. n) some success get twelve).content_length ≡ some text)
    × ((none ≡ some text) ⊎ (◌≡◌ {A = Option Text} none none × (value 0 text ≡ 12)))
    × ((normalize 0 (λ n. n) some success head twelve).content_length ≡ some text)
    × ((normalize 0 (λ n. n) some success head twelve).body ≡ 0)
normalize-content_length_test =
    normalize-content_length 0 (λ n. n) some success twelve 12 refl (omega arith)

-- A body of another package that gives the polls of a list.
abbrev next_poll : List Poll → List Poll × Poll
next_poll [] = ([], finished)
next_poll (p ∷ ps) = (ps, p)

abbrev listed : HttpBody (List Poll)
listed = record { poll_frame = next_poll; is_end_stream = λ ps. false; size_hint = λ ps. (0, none) }

abbrev channel_of : ℕ → Bodies.Body (List Poll) ℕ
channel_of n = limited n (full five)

limited_three : Bodies.limit 3 (channel_of 4) ≡ ok (channel_of 3)
unfolding Bodies.limit
limited_three = refl

limit-polls_test : polls listed 5 (channel_of 3) ≡ drain 3 (polls listed 5 (channel_of 4))
limit-polls_test = limit-polls listed 5 3 (channel_of 4) (channel_of 3) limited_three

polls_test :
    polls listed 3 (channel_of 3)
    ≡ ready (data_frame (1 ∷ 2 ∷ [])) ∷ pending ∷ failed length_limit_error ∷ []
unfolding polls Bodies.poll_frame ran
polls_test = refl

abbrev collect : Collect
collect = record {
  collect = collect_all;
  collect-finished = λ ps. refl;
  collect-failed = λ e ps. refl;
  collect-pending = λ ps. refl;
  collect-trailers = λ ps. refl;
  collect-data = λ b ps. refl;
  collect-none = refl;
}

abbrev first_byte : List ℕ → Result ℕ Error
first_byte [] = err bad_request
first_byte (x ∷ xs) = ok x

-- Five bytes under a limit of four.
channel_four : Bodies.limit 4 (full five) ≡ ok (channel_of 4)
unfolding Bodies.limit
channel_four = refl

read-limit_example :
    read {V = ℕ} collect (λ n. stream_aborted) listed first_byte 9 (channel_of 4)
    ≡ some (err (body_error Errors.length_limit_error))
unfolding polls Bodies.poll_frame ran
read-limit_example =
    read-limit collect (λ n. stream_aborted) listed first_byte 9 4 (full five) (channel_of 4)
      (1 ∷ 2 ∷ 3 ∷ 4 ∷ 5 ∷ []) channel_four refl

bytes_test :
    bytes {V = ℕ} collect (λ n. stream_aborted) listed 9 (channel_of 5)
    ≡ some (ok (1 ∷ 2 ∷ 3 ∷ 4 ∷ 5 ∷ []))
unfolding polls Bodies.poll_frame ran bytes
bytes_test = refl
