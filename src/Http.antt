-- ===== src/Http.antt =====
-- What the sources use of the `http` crate's `Method`: the constants that they name, and any other.
use ftl.Prelude.{ℕ, List}

-- A text as its code points.
abbrev pub Text : Type 0
Text = List ℕ

pub data Method : Type 0 where
  get post put delete patch head connect options trace : Method
  extension : Text → Method
