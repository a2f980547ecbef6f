-- ===== src/Tests/Files.antt =====
-- Runs of fs.rs, on a cache of one file.
use ftl.Prelude.{
  ℕ, ◌≡◌, ◌≢◌, ◌⊎◌, inr, ◌↔◌, refl, Bool, true, false, leb, ltb, Option, none, some, [], ◌∷◌, ◌++◌,
  ok, err, if◌then◌else◌, All, arith,
}
use ftl.Prelude.Words.{u64_max}
use ftl.Http.{Text, get}
use ftl.Strings.{codes, split, is, starts_with, text_eq}
use ftl.Decimal.{print}
use ftl.EntityTag.{EntityTag, from_file, weak_eq}
use ftl.Encoding.{identity}
use ftl.Fs.{
  Bound, included, start_overflows, end_overflows, overflows, bytes_range, Conditionals, no_body,
  not_modified, check, sanitize_path, push_segments, push, is_rejected,
}
use ftl.Fs.Conditions.{TagMatches, IsChanged, IsUnchanged, Decide, check-not_modified_iff}
use ftl.Fs.Paths.{IsSafe, push_all, sanitize_path-IsSafe}
use ftl.Serve.{
  Panics, not_found, Meta, Cache, Request, reader, Content, get_or_head, file_reply, with_file,
  with_meta, on_range, on_cond, with_date, serve, make_body, dir,
}
use ftl.Serve.Replies.{IsConsistent}
use ftl.Serve.Total.{file_reply-total}
use ftl.Serve.Dirs.{IsIndexed, dir-IsSafe}
use ftl.Serve.Whole.{Reply_of, Describes, file_reply-IsConsistent}

ran : Unit {0}
unfolding print split starts_with text_eq weak_eq from_file bytes_range check sanitize_path
    push_segments push is_rejected get_or_head file_reply with_file with_meta with_date on_cond
    on_range overflows start_overflows end_overflows serve make_body dir
ran = tt

abbrev plain_decode : Text → Option Text
plain_decode s = some s

sanitize_tests :
    (sanitize_path false plain_decode (codes "/srv") (codes "a/b") ≡ ok (codes "/srv/a/b"))
    × (sanitize_path false plain_decode (codes "/srv") (codes "/a//b") ≡ ok (codes "/srv/a/b"))
unfolding ran
sanitize_tests = (refl, refl)

sanitize_path-IsSafe_example :
    (p : Text) × (rest : Text) × (some (codes "a/b") ≡ some p)
    × All IsSafe (split (is b'/') p)
    × (codes "/srv/a/b" ≡ push_all (codes "/srv") (split (is b'/') p))
    × (codes "/srv/a/b" ≡ codes "/srv" ++ rest)
unfolding ran
sanitize_path-IsSafe_example =
    sanitize_path-IsSafe false plain_decode (codes "/srv") (codes "a/b") (codes "/srv/a/b") refl

-- A date passes for a file that was written no later.
abbrev no_later : ℕ → ℕ → Bool
no_later d t = leb t d

abbrev later : ℕ → ℕ → Bool
later d t = ltb d t

abbrev any_range : Unit {0} → Option ℕ → Bool
any_range _ _ = false

abbrev bytes_0_3 : Option (Bound × Bound)
bytes_0_3 = some (included 0, included 3)

-- The tag is another one, but the file was not written since.
abbrev asked : Conditionals ℕ (Unit {0}) (Bound × Bound)
asked = record {
  if_modified_since = some 50;
  if_unmodified_since = some 60;
  if_range = none;
  if_none_match = some (record { weak = true; tag = codes "old" } ∷ []);
  range = bytes_0_3;
}

abbrev file_tag : EntityTag
file_tag = record { weak = true; tag = codes "new" }

check-not_modified_iff_example :
    (Decide no_later later any_range asked (some 40) file_tag ≡ no_body not_modified) ↔ (
      TagMatches asked.if_none_match file_tag
      ⊎ ((¬ TagMatches asked.if_none_match file_tag)
          × (¬ IsChanged no_later (some 60) (some 40))
          × IsUnchanged later (some 50) (some 40)))
check-not_modified_iff_example =
    check-not_modified_iff no_later later any_range asked (some 40) file_tag

check_tests :
    (Decide no_later later any_range asked (some 40) file_tag ≡ no_body 304)
    × (Decide no_later later any_range asked (some 70) file_tag ≡ no_body 412)
unfolding ran
check_tests = (refl, refl)

abbrev ten : Meta ℕ
ten = record { is_dir = false; len = 10; blksize = 4096; modified = some 40 }

-- A cache of one file, of ten bytes, that is never compressed.
abbrev one_file : Cache (Unit {0}) ℕ
unfolding ran
one_file = record {
  is_method_allowed = get_or_head;
  open_file = λ p accept. if text_eq p (codes "/srv/a") then ok tt else err not_found;
  metadata = λ p. if text_eq p (codes "/srv/a") then ok ten else err not_found;
  file_metadata = λ f. ok ten;
  encoding = λ f. identity;
  full = λ f. none;
  seek = λ f n. ok tt;
}

abbrev request : Request ℕ (Unit {0}) (Bound × Bound)
request = record {
  method = get;
  accept_encoding = none;
  conditionals = record asked { if_modified_since = none; if_unmodified_since = none };
}

abbrev age : ℕ → Option (ℕ × ℕ)
age t = some (t, 0)

abbrev as_is : (Bound × Bound) → ℕ → Option (Bound × Bound)
as_is r n = some r

-- Every time has a date, and additions are checked.
abbrev checked : Panics ℕ
checked = record { http_date = λ t. some t; overflow_checks = true }

abbrev text_plain : Text → Option Text
text_plain _ = some (codes "text/plain")

-- The first four bytes of ten.
abbrev part : Content ℕ
unfolding ran from_file
part = record {
  status = 206;
  etag = from_file (some (40, 0)) 10;
  content_range = some (0, 4, 10);
  body = reader 0 10 4;
  trailer = true;
  last_modified = some 40;
  content_encoding = none;
  content_length = 4;
  content_type = codes "text/plain";
}

file_reply-total_example :
    Reply_of no_later later any_range as_is age checked one_file text_plain request
      (codes "/srv/a")
      none
    ≢ none
unfolding one_file
file_reply-total_example =
    file_reply-total no_later later any_range as_is age checked one_file text_plain request
      (codes "/srv/a") none (λ f meta known t h e. cc)
      (inr (λ r n s e h k. ((λ b. ground arith), (λ b. ground arith)))) (λ p f h. refl)

-- A file from before 1970, and a range up to the last `u64`.
panic_tests :
    (Reply_of no_later later any_range as_is age
        (record { http_date = λ t. none; overflow_checks = false })
        one_file
        text_plain
        request
        (codes "/srv/a")
        none
      ≡ none)
    × (Reply_of no_later later any_range as_is age checked one_file text_plain
          (record request {
            conditionals = record request.conditionals {
              range = some (included 0, included u64_max);
            };
          })
          (codes "/srv/a")
          none
        ≡ none)
unfolding ran one_file
panic_tests = (refl, refl)

file_reply-IsConsistent_example :
    (f : Unit {0}) × (meta : Meta ℕ) × (start : ℕ) × (end : ℕ) × (one_file.open_file
        (codes "/srv/a")
        none
      ≡ ok f)
    × Describes no_later later any_range as_is age checked one_file text_plain none f meta
    × IsConsistent get meta.len start end part
unfolding ran
file_reply-IsConsistent_example =
    file_reply-IsConsistent no_later later any_range as_is age checked one_file text_plain request
      (codes "/srv/a") none part refl

abbrev bytes_2_5 : Option (Bound × Bound)
bytes_2_5 = some (included 2, included 5)

dir-IsSafe_example :
    (p : Text) × (opened : Text) × (rest : Text) × (f : Unit {0}) × (some (codes "a") ≡ some p)
    × All IsSafe (split (is b'/') p)
    × IsIndexed (codes "/srv") (split (is b'/') p) opened
    × (opened ≡ codes "/srv" ++ rest)
    × (one_file.open_file opened none ≡ ok f)
unfolding ran
dir-IsSafe_example =
    dir-IsSafe no_later later any_range as_is age checked one_file text_plain false plain_decode
      request (codes "a") (codes "/srv") part refl
