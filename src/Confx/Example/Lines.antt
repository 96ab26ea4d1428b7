-- ===== src/Confx/Example/Lines.antt =====
-- Reading the lines of the reference configuration.
use Prim.Native.Nat.{suc, zero}
use pdbcore.Prelude.{
  ◌≡◌, refl, ap, subst, sym, ◌∙◌, ℕ, Bool, true, false, not, List, [], ◌∷◌, ◌++◌, append_assoc,
  Option, none, some, Text, codes, is_empty, All, All-append, keep, arith, ◌==◌, text_eq,
  if◌then◌else◌, if-all,
}
use pdbcore.Prelude.Map.{Map, get, put, get-put}
use pdbcore.Prelude.Words.{split, split-append-Lacks}
use pdbcore.Confx.Fields.{Tags}
use pdbcore.Confx.Variables.{is_path, is_path_rune, is_path-IsStep}
use pdbcore.Confx.Example.{text_at, pad, line, doc_of, comment, with_docs}
use pdbcore.Confx.Example.Values.{IsLine}

-- A line that is neither blank nor a comment.
abbrev pub is_setting : Text → Bool
is_setting [] = false
is_setting (c ∷ s) = if c == b' ' then is_setting s else not (c == b'#')

unfoldable pub settings : Text → List Text
settings text = keep is_setting (split b'\n' text)

is_setting-pad : (n : ℕ) (s : Text) → is_setting (pad n ++ s) ≡ is_setting s
unfolding pad
is_setting-pad zero s = refl
is_setting-pad (suc n) s = is_setting-pad n s

pad-IsLine : (n : ℕ) → IsLine (pad n)
unfolding pad
pad-IsLine zero = tt
pad-IsLine (suc n) = (refl, (refl, pad-IsLine n))

-- Reading on behind a line.
abbrev after_line : ℕ → Text → List Text → List Text
after_line n content rest = if is_setting content then (pad n ++ content) ∷ rest else rest

line-append :
    (n : ℕ) (content tail : Text) → line n content ++ tail ≡ (pad n ++ content) ++ b'\n' ∷ tail
unfolding line
line-append n content tail = simp append_assoc

settings-line :
    (n : ℕ) (content tail : Text)
    → IsLine content
    → settings (line n content ++ tail) ≡ after_line n content (settings tail)
unfolding settings keep
settings-line n content tail h =
    ap settings (line-append n content tail)
    ∙ ap (keep is_setting) (
        split-append-Lacks b'\n' (pad n ++ content) tail
          (All-append _ (pad n) content (pad-IsLine n) h))
    ∙ (rw (is_setting-pad n content) refl)

pub settings-comment :
    (n : ℕ) (doc tail : Text) → IsLine doc → settings (comment n doc ++ tail) ≡ settings tail
unfolding comment
settings-comment n doc tail h =
    if-all (λ (t : Text). settings (t ++ tail) ≡ settings tail) (not (is_empty doc)) _ _
      (λ e. settings-line n (codes "# " ++ doc) tail (refl, (refl, h))) (λ e. refl)

path_rune_line : (c : ℕ) → is_path_rune c ≡ true → (c == b'\n') ≡ false
unfolding is_path_rune
path_rune_line c h = ground arith

no_blank : (c : ℕ) → is_path_rune c ≡ true → (c == b' ') ≡ false
unfolding is_path_rune
no_blank c h = ground arith

no_hash : (c : ℕ) → is_path_rune c ≡ true → (c == b'#') ≡ false
unfolding is_path_rune
no_hash c h = ground arith

path_setting : (k s : Text) → is_path true k ≡ true → is_setting (k ++ s) ≡ true
unfolding is_path
path_setting [] s h = cc
path_setting (c ∷ k) s h =
    let rune = (is_path-IsStep true c k h).rune in rw (no_blank c rune, no_hash c rune) refl

path-IsLine : (fresh : Bool) (k : Text) → is_path fresh k ≡ true → IsLine k
path-IsLine fresh [] h = tt
path-IsLine fresh (c ∷ k) h =
    let step = is_path-IsStep fresh c k h in
    (path_rune_line c step.rune, path-IsLine (c == b'.') k step.rest)

pub settings-key :
    (n : ℕ) (k s tail : Text)
    → is_path true k ≡ true
    → IsLine s
    → settings (line n (k ++ s) ++ tail) ≡ (pad n ++ (k ++ s)) ∷ settings tail
settings-key n k s tail h line =
    settings-line n (k ++ s) tail (All-append _ k s (path-IsLine true k h) line)
    ∙ (rw (path_setting k s h) refl)

pub settings-blank : (tail : Text) → settings (b'\n' ∷ tail) ≡ settings tail
unfolding settings split keep
settings-blank tail = refl

-- Overrides of one line each.
abbrev pub HasLines : Map Text → Type 0
HasLines docs = (path : Text) → IsLine (text_at (get path docs))

pub doc_of-IsLine :
    (docs : Map Text) (path : Text) (t : Tags)
    → HasLines docs
    → IsLine t.doc
    → IsLine (doc_of docs path t)
unfolding doc_of
doc_of-IsLine docs path t h own = by_override (get path docs) (h path)
  where
    by_override :
        (o : Option Text)
        → IsLine (text_at o)
        → IsLine (elim o as (λ x. Text) [ none ↦ t.doc | some d ↦ d ])
    by_override none k = own
    by_override (some d) k = k

pub with_docs-HasLines :
    (opts : List (Text × Text)) (docs : Map Text)
    → All (λ (o : Text × Text). IsLine o.1) opts
    → HasLines docs
    → HasLines (with_docs opts docs)
unfolding with_docs
with_docs-HasLines [] docs h k = k
with_docs-HasLines ((path, doc) ∷ opts) docs (hd, h) k =
    with_docs-HasLines opts (put path doc docs) h (λ p.
      subst (λ (o : Option Text). IsLine (text_at o)) (sym (get-put path p doc docs))
        (if-all (λ (o : Option Text). IsLine (text_at o)) (text_eq path p) _ _ (λ e. hd)
          (λ e. k p)))
