-- ===== src/Tokens/Table.antt =====
-- What the token table promises: a token for every value, the same one each time, and none that was
-- handed out or supplied before.
use vibe_alfa_gen.Prelude.{
  ℕ, suc, ◌≡◌, ◌⊎◌, refl, sym, ap, ◌∙◌, true, false, List, ◌∷◌, none, some, text_eq, string_eq,
  pair_eq, length, contains, arith, inl, inr, beq_refl, lookup, lookup-insert_self,
  lookup-insert_cases, lookup-insert_old, Option-cases,
}
use vibe_alfa_gen.Domain.{PiiType}
use vibe_alfa_gen.Text.{Text}
use vibe_alfa_gen.Tokens.{Mac, TokenTable, new_token_table, token_text, token, store_token}
use vibe_alfa_gen.Tokens.Fresh.{search_token-some}

abbrev pub Key : Type 0
Key = PiiType × Text

-- Tokens that were handed out are reserved, and no two keys have one token.
pub record IsValid (t : TokenTable) : Type 0 where
  pub reserves :
      (k : Key) (tok : Text) → lookup k t.values ≡ some tok → contains t.reserved tok ≡ true
  pub separates :
      (j k : Key) (tok : Text) → lookup j t.values ≡ some tok → lookup k t.values ≡ some tok → j ≡ k

-- What a call of `token` does to the table.
pub record IsIssued (t : TokenTable) (key : Key) (made : Text) (t' : TokenTable) : Type 0 where
  pub valid : IsValid t'
  pub kept : lookup key t'.values ≡ some made
  pub grows : (k : Key) (tok : Text) → lookup k t.values ≡ some tok → lookup k t'.values ≡ some tok
  pub only :
      (k : Key) (tok : Text)
      → lookup k t'.values ≡ some tok
      → ((key ≡ k) × (made ≡ tok)) ⊎ (lookup k t.values ≡ some tok)
  pub fresh : lookup key t.values ≡ none → contains t.reserved made ≡ false
  pub holds : (tok : Text) → contains t.reserved tok ≡ true → contains t'.reserved tok ≡ true

pub new_token_table-IsValid : (input nonce : Text) → IsValid (new_token_table input nonce)
unfolding new_token_table lookup
new_token_table-IsValid input nonce = record {
  reserves = λ k tok h. cc;
  separates = λ j k tok h. cc;
}

now_reserved : (a b : Text) (rs : List Text) → a ≡ b → contains (a ∷ rs) b ≡ true
unfolding contains
now_reserved a b rs e = rw e (rw (beq_refl b))

still_reserved : (a b : Text) (rs : List Text) → contains rs b ≡ true → contains (a ∷ rs) b ≡ true
unfolding contains
still_reserved a b rs h = ground (arith, h)

unreserved :
    (a b : Text) (rs : List Text) → contains rs a ≡ false → a ≡ b → contains rs b ≡ true → ⊥
unreserved a b rs h e g = cc (ap (contains rs) e)

store_token-IsIssued :
    (mac : Mac) (t : TokenTable) (typ : PiiType) (value : Text) (n : ℕ)
    → IsValid t
    → lookup (typ, value) t.values ≡ none
    → contains t.reserved (token_text mac t.nonce typ value n) ≡ false
    → IsIssued t (typ, value) (token_text mac t.nonce typ value n) (store_token mac t typ value n).1
store_token-IsIssued mac t typ value n valid new free =
    let made = token_text mac t.nonce typ value n in
    let key : Key = (typ, value) in
    record {
      valid = record {
        reserves = λ k tok h. elim (lookup-insert_cases key k made tok t.values h) [
          | inl (_, e) ↦ now_reserved made tok t.reserved e
          | inr old ↦ still_reserved made tok t.reserved (valid.reserves k tok old)
        ];
        separates = λ j k tok h g. elim (lookup-insert_cases key j made tok t.values h) [
          | inl (ej, e) ↦ elim (lookup-insert_cases key k made tok t.values g) [
            | inl (ek, _) ↦ sym ej ∙ ek
            | inr old ↦ absurd (unreserved made tok t.reserved free e (valid.reserves k tok old))
          ]
          | inr oldj ↦ elim (lookup-insert_cases key k made tok t.values g) [
            | inl (_, e) ↦
                absurd (unreserved made tok t.reserved free e (valid.reserves j tok oldj))
            | inr oldk ↦ valid.separates j k tok oldj oldk
          ]
        ];
      };
      kept = lookup-insert_self key made t.values;
      grows = λ k tok h. lookup-insert_old key k made tok t.values new h;
      only = λ k tok h. lookup-insert_cases key k made tok t.values h;
      fresh = λ _. free;
      holds = λ tok h. still_reserved made tok t.reserved h;
    }

-- The loop of `token` ends. A value gets the token that it had, or one that was not reserved, and
-- every token handed out stays with its value alone.
pub token-IsIssued :
    (mac : Mac) (t : TokenTable) (typ : PiiType) (value : Text)
    → IsValid t
    → (made : Text) × (t' : TokenTable) × (token mac t typ value ≡ some (made, t'))
      × IsIssued t (typ, value) made t'
unfolding token
token-IsIssued mac t typ value valid = elim (Option-cases (lookup (typ, value) t.values)) [
  | inr (known, e) ↦ (
    known,
    t,
    rw (e, token),
    record {
      valid = valid;
      kept = e;
      grows = λ k tok h. h;
      only = λ k tok h. inr h;
      fresh = λ n. cc;
      holds = λ tok h. h;
    },
  )
  | inl new ↦
      let (n, found, free, _) =
        search_token-some mac t.nonce typ value t.reserved (suc (length t.reserved)) t.next
          t.reserved (λ k _. refl) (omega arith) in
      (
        token_text mac t.nonce typ value n,
        (store_token mac t typ value n).1,
        rw (new, token) (rw (found, token)),
        store_token-IsIssued mac t typ value n valid new free,
      )
]
