-- ===== src/Engine/Pieces.antt =====
-- What the masking loop writes: the text with each finding replaced, and with tokens a mapping that
-- takes each of them back to its value.
use vibe_alfa_gen.Prelude.{
  ℕ, zero, suc, ◌+◌, ◌-◌, ◌≤◌, ◌≡◌, refl, sym, ap, ◌∙◌, true, false, List, [], ◌∷◌, ◌++◌,
  append_assoc, some, text_eq, pair_eq, string_eq, nat_eq, ◌==◌, inl, inr, Bool-cases, eq_of_beq,
  beq_refl, lookup, insert, lookup-insert, length, drop, slice, arith, take-append-drop,
}
use vibe_alfa_gen.Domain.Results.{>>=-eq-ok}
use vibe_alfa_gen.Domain.{Finding, Policy, ok}
use vibe_alfa_gen.Text.{Text}
use vibe_alfa_gen.Registry.{Registry, Context}
use vibe_alfa_gen.Tokens.{TokenTable, new_token_table}
use vibe_alfa_gen.Tokens.Table.{Key, IsValid, IsIssued, token-IsIssued, new_token_table-IsValid}
use vibe_alfa_gen.Engine.Steps.{ok-injective, unless_stopped-eq-ok}
use vibe_alfa_gen.Engine.{
  Machine, Call, Writer, Masking, write_finding, write_findings, write_masked, verify, finish,
}

-- The text from `cursor` on, with each finding replaced by its piece.
abbrev pub splice : Text → ℕ → List Finding → List Text → Text
splice text cursor [] pieces = drop cursor text
splice text cursor (f ∷ fs) [] = drop cursor text
splice text cursor (f ∷ fs) (piece ∷ pieces) =
    slice text cursor f.start ++ (piece ++ splice text f.stop fs pieces)

-- The values that the findings stand for.
abbrev pub values_of : Text → List Finding → List Text
values_of text [] = []
values_of text (f ∷ fs) = slice text f.start f.stop ∷ values_of text fs

-- Each piece is taken to the value that it stands for.
abbrev pub Restores : List (Text × Text) → List Text → List Text → Type 0
Restores mapping [] [] = Unit
Restores mapping (piece ∷ pieces) (value ∷ values) =
    (lookup piece mapping ≡ some value) × Restores mapping pieces values
Restores mapping _ _ = ⊥

drop-drop : (lo n : ℕ) (text : Text) → drop n (drop lo text) ≡ drop (lo + n) text
drop-drop zero n text = ap (λ k. drop k text) (omega arith)
drop-drop (suc lo) n [] = drop_nil n ∙ sym (drop_nil (suc lo + n))
  where
    drop_nil : (n : ℕ) → drop {A = ℕ} n [] ≡ []
    drop_nil zero = refl
    drop_nil (suc n) = refl
drop-drop (suc lo) n (b ∷ text) =
    let same : suc (lo + n) ≡ suc lo + n = omega arith in
    drop-drop lo n text ∙ ap (λ k. drop k (b ∷ text)) same

slice-append-drop :
    (text : Text) (lo hi : ℕ) → lo ≤ hi → slice text lo hi ++ drop hi text ≡ drop lo text
slice-append-drop text lo hi h =
    ap (λ s. slice text lo hi ++ s)
      (ap (λ k. drop k text) (omega arith) ∙ sym (drop-drop lo (hi - lo) text))
    ∙ take-append-drop (hi - lo) (drop lo text)

-- Findings from `n` on, in order, that do not overlap.
abbrev pub InOrder : ℕ → List Finding → Type 0
InOrder n [] = Unit
InOrder n (f ∷ fs) = (n ≤ f.start) × (f.start ≤ f.stop) × InOrder f.stop fs

splice-values_of :
    (text : Text) (n : ℕ) (fs : List Finding)
    → InOrder n fs
    → splice text n fs (values_of text fs) ≡ drop n text
splice-values_of text n [] h = refl
splice-values_of text n (f ∷ fs) (h, g, rest) =
    ap (λ s. slice text n f.start ++ (slice text f.start f.stop ++ s))
      (splice-values_of text f.stop fs rest)
    ∙ ap (λ s. slice text n f.start ++ s) (slice-append-drop text f.start f.stop g)
    ∙ slice-append-drop text n f.start h

-- The tokens handed out are in the mapping, with their values.
record IsMapped (w : Writer) : Type 0 where
  valid : IsValid w.table
  maps :
      (k : Key) (tok : Text) → lookup k w.table.values ≡ some tok → lookup tok w.mapping ≡ some k.1

-- The token of each finding.
abbrev Tokens : TokenTable → Text → List Finding → List Text → Type 0
Tokens t text [] [] = Unit
Tokens t text (f ∷ fs) (tok ∷ toks) =
    (lookup (f.typ, slice text f.start f.stop) t.values ≡ some tok) × Tokens t text fs toks
Tokens t text _ _ = ⊥

Tokens-Restores :
    (w : Writer) (text : Text) (fs : List Finding) (toks : List Text)
    → IsMapped w
    → Tokens w.table text fs toks
    → Restores w.mapping toks (values_of text fs)
Tokens-Restores w text [] [] h g = tt
Tokens-Restores w text (f ∷ fs) (tok ∷ toks) h (here, rest) =
    (h.maps (f.typ, slice text f.start f.stop) tok here, Tokens-Restores w text fs toks h rest)
Tokens-Restores w text [] (tok ∷ toks) h g = absurd g
Tokens-Restores w text (f ∷ fs) [] h g = absurd g

maps-insert :
    (t t' : TokenTable) (key : Key) (made : Text) (mapping : List (Text × Text))
    → IsIssued t key made t'
    → ((k : Key) (tok : Text) → lookup k t.values ≡ some tok → lookup tok mapping ≡ some k.1)
    → (k : Key) (tok : Text) → lookup k t'.values ≡ some tok
    → lookup tok (insert made key.1 mapping) ≡ some k.1
maps-insert t t' key made mapping issued maps k tok h = elim (Bool-cases (made == tok)) [
  | inl same ↦
      let equal : made ≡ tok = eq_of_beq made tok same in
      let mine : key ≡ k = issued.valid.separates key k tok (rw (← equal) issued.kept) h in
      rw (lookup-insert made tok key.1 mapping) (rw same (ap (λ (x : Key). some x.1) mine))
  | inr other ↦ rw (lookup-insert made tok key.1 mapping) (
      rw other (elim (issued.only k tok h) [
        | inl (_, e) ↦ absurd (differ other e)
        | inr old ↦ maps k tok old
      ]))
]
  where
    differ : (made == tok) ≡ false → made ≡ tok → ⊥
    differ e p = cc (sym (beq_refl tok) ∙ ap (λ x. x == tok) (sym p) ∙ e)

module _ (m : Machine) (r : Registry) (text : Text) where
  -- One round of the loop, with tokens.
  record IsWritten (f : Finding) (w w' : Writer) : Type 0 where
    piece : Text
    mapped : IsMapped w'
    grows :
        (k : Key) (tok : Text)
        → lookup k w.table.values ≡ some tok
        → lookup k w'.table.values ≡ some tok
    kept : lookup (f.typ, slice text f.start f.stop) w'.table.values ≡ some piece
    writes : w'.out ≡ (w.out ++ slice text w.cursor f.start) ++ piece
    moves : w'.cursor ≡ f.stop

  write_finding-IsWritten :
      (f : Finding) (w w' : Writer)
      → IsMapped w
      → write_finding m r text true f w ≡ ok w'
      → IsWritten f w w'
  unfolding write_finding
  write_finding-IsWritten f w w' h e =
      let (made, t', answer, issued) =
        token-IsIssued m.mac w.table f.typ (slice text f.start f.stop) h.valid in
      let is_next : w' ≡ record {
        out = (w.out ++ slice text w.cursor f.start) ++ made;
        cursor = f.stop;
        table = t';
        mapping = insert made (slice text f.start f.stop) w.mapping;
      } =
        sym (ok-injective (rw answer at e)) in
      rw is_next record {
        piece = made;
        mapped = record {
          valid = issued.valid;
          maps =
              maps-insert w.table t' (f.typ, slice text f.start f.stop) made w.mapping issued
                h.maps;
        };
        grows = issued.grows;
        kept = issued.kept;
        writes = refl;
        moves = refl;
      }

  abbrev pub start : Text → Writer
  start nonce = record { out = []; cursor = 0; table = new_token_table text nonce; mapping = [] }

  start-IsMapped : (nonce : Text) → IsMapped (start nonce)
  unfolding new_token_table lookup
  start-IsMapped nonce = record { valid = new_token_table-IsValid text nonce; maps = λ k tok e. cc }

  -- The whole loop, with tokens.
  record IsFinished (fs : List Finding) (w w' : Writer) : Type 0 where
    pieces : List Text
    mapped : IsMapped w'
    grows :
        (k : Key) (tok : Text)
        → lookup k w.table.values ≡ some tok
        → lookup k w'.table.values ≡ some tok
    tokens : Tokens w'.table text fs pieces
    writes : w'.out ++ drop w'.cursor text ≡ w.out ++ splice text w.cursor fs pieces

  write_findings-IsFinished :
      (ctx : Context) (n : ℕ) (fs : List Finding) (w w' : Writer)
      → IsMapped w
      → write_findings m r ctx n text true fs w ≡ ok w'
      → IsFinished fs w w'
  unfolding write_findings
  write_findings-IsFinished ctx n [] w w' h e =
      rw (← ok-injective e)
        record { pieces = []; mapped = h; grows = λ k tok g. g; tokens = tt; writes = refl }
  write_findings-IsFinished ctx n (f ∷ fs) w w' h e =
      let (w1, first, rest) =
        >>=-eq-ok (write_finding m r text true f w) _ w' (unless_stopped-eq-ok (ctx n) _ w' e) in
      let one = write_finding-IsWritten f w w1 h first in
      let more = write_findings-IsFinished ctx (suc n) fs w1 w' one.mapped rest in
      record {
        pieces = one.piece ∷ more.pieces;
        mapped = more.mapped;
        grows = λ k tok g. more.grows k tok (one.grows k tok g);
        tokens = (more.grows (f.typ, slice text f.start f.stop) one.piece one.kept, more.tokens);
        writes =
            more.writes
            ∙ ap (λ c. w1.out ++ splice text c fs more.pieces) one.moves
            ∙ ap (λ o. o ++ splice text f.stop fs more.pieces) one.writes
            ∙ append_assoc (w.out ++ slice text w.cursor f.start) one.piece
                (splice text f.stop fs more.pieces)
            ∙ append_assoc w.out (slice text w.cursor f.start)
                (one.piece ++ splice text f.stop fs more.pieces);
      }

  pub finish-made :
      (c : Call) (pol : Policy) (fs : List Finding) (nonce : Text) (w : Writer) (made : Masking)
      → finish m r c text pol fs nonce w ≡ ok made
      → (made.masked ≡ w.out ++ drop w.cursor text) × (made.mapping ≡ w.mapping)
  finish-made c pol fs nonce w made h = elim (Bool-cases (length fs == 0)) [
    | inl e ↦
        let same = ok-injective (rw e at h) in
        (ap (λ (x : Masking). x.masked) (sym same), ap (λ (x : Masking). x.mapping) (sym same))
    | inr e ↦
        let (u, verified, last) =
          >>=-eq-ok (verify m r c (w.out ++ drop w.cursor text) pol fs) _ made (rw e at h) in
        let same = ok-injective last in
        (ap (λ (x : Masking). x.masked) (sym same), ap (λ (x : Masking). x.mapping) (sym same))
  ]

  -- With a nonce, findings that are in order and do not overlap, and a mask that was made: the masked
  -- text is the text with a token in place of each finding, the mapping takes each token back to the
  -- value that it replaced, and the values in place of the tokens give the text again.
  pub write_masked-Restores :
      (c : Call) (pol : Policy) (fs : List Finding) (nonce : Text) (made : Masking)
      → (length nonce == 0) ≡ false
      → InOrder 0 fs
      → write_masked m r c text pol fs nonce ≡ ok made
      → (pieces : List Text) × (made.masked ≡ splice text 0 fs pieces)
        × Restores made.mapping pieces (values_of text fs)
        × (splice text 0 fs (values_of text fs) ≡ text)
  unfolding write_masked
  write_masked-Restores c pol fs nonce made some_nonce order h =
      let (w, written, last) =
        >>=-eq-ok (write_findings m r c.masking 0 text true fs (start nonce)) _ made
          (rw some_nonce at h) in
      let all =
        write_findings-IsFinished c.masking 0 fs (start nonce) w (start-IsMapped nonce) written in
      let (shown, mapping) = finish-made c pol fs nonce w made last in
      (
        all.pieces,
        shown ∙ all.writes,
        rw mapping (Tokens-Restores w text fs all.pieces all.mapped all.tokens),
        splice-values_of text 0 fs order,
      )
