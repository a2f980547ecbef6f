-- ===== src/Encoding/Refused.antt =====
-- headers/accept_encoding.rs: a weight of zero, and a wildcard after it.
use ftl.Prelude.{◌≤◌, ◌<◌, ◌≡◌, ◌∙◌, ap, refl, some, [], ◌∷◌, ◌++◌, arith}
use mathlib.Core.List.{append-nil}
use ftl.Strings.{splitn2, codes, text_eq, eq_ignore_ascii_case, trim, split, is, is_whitespace}
use ftl.Strings.Pieces.{split-append, split_of_Avoids}
use ftl.QValue.{QValue, fmt, parse, wildcard}
use ftl.Encoding.{default, slot_of, assign, wild, decode_one, decode_values, list_values, decode}
use ftl.Encoding.Items.{item, item-Avoids, decode_item, star-IsName}

refused_gzip : decode_one (codes "gzip;q=0") default ≡ some default
unfolding decode_one splitn2 slot_of eq_ignore_ascii_case trim is_whitespace text_eq parse assign
    default
refused_gzip = refl

assign_wild :
    (q : QValue)
    → 0 < q
    → assign wild q default ≡ record { gzip = q; br = q; deflate = q; zstd = q }
unfolding assign default wildcard
assign_wild q h = ground arith

refused_values :
    (q : QValue)
    → q ≤ 1000
    → decode_values (codes "gzip;q=0" ∷ item (codes "*") q ∷ []) default
      ≡ some (assign wild q default)
unfolding decode_values
refused_values q h = rw (refused_gzip, decode_item (codes "*") wild q default star-IsName h)

refused_split :
    (q : QValue)
    → split (is b',') (codes "gzip;q=0,*;q=" ++ fmt q) ≡ codes "gzip;q=0" ∷ item (codes "*") q ∷ []
refused_split q =
    split-append (is b',') (codes "gzip;q=0") (item (codes "*") q) b',' (ground arith) refl
    ∙ ap (λ l. codes "gzip;q=0" ∷ l)
        (split_of_Avoids (is b',') (item (codes "*") q)
          (item-Avoids (codes "*") q star-IsName.single))

-- A header that refuses gzip by `q=0` and then gives the wildcard any weight `q` above zero and at
-- most 1000 thousandths is read as accepting gzip, and all the others, with weight `q`.
pub decode_refused :
    (q : QValue)
    → 0 < q
    → q ≤ 1000
    → decode some ((codes "gzip;q=0,*;q=" ++ fmt q) ∷ [])
      ≡ some (record { gzip = q; br = q; deflate = q; zstd = q })
unfolding decode list_values
decode_refused q h k =
    rw (append-nil, refused_split q, refused_values q k) (ap some (assign_wild q h))
