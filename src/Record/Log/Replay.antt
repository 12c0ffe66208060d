-- ===== src/Record/Log/Replay.antt =====
-- OpenLog as one pass over the stored entries, and its agreement with Append.
use cloudy.Prelude.{
  ℕ, suc, ◌≡◌, refl, sym, ap, subst, ◌∙◌, inl, inr, arith, Bool-cases, List, [], ◌∷◌, ◌++◌, length,
  length-append, ◌==◌,
}
use cloudy.Prelude.Bytes.{Bytes}
use cloudy.Prelude.Result.{Result, ok, ◌>>=◌, Result-cases}
use cloudy.Primitives.{Hash, Primitives, public_key_size}
use cloudy.Record.Entry.{Error, Entry, log_id}
use cloudy.Record.Log.{Store, persist, at, len, Log, admit, check, replay, open_log, append}

module _ (p : Primitives) where
  -- The log that a new operator starts with.
  abbrev pub empty_log : Bytes → Log
  empty_log operator = record { id = log_id p operator; leafs = []; index = [] }

  -- One pass over the entries.
  unfoldable pub admit_all : List Entry → Log → Result Error Log
  admit_all [] l = ok l
  admit_all (e ∷ es) l = do leaf ← check p l e; admit_all es (admit leaf l)

  at-middle : (front back : Store) (e : Entry) → at (length front) (front ++ e ∷ back) ≡ ok e
  unfolding at
  at-middle [] back e = refl
  at-middle (x ∷ front) back e = at-middle front back e

  pub snoc-append : (front back : Store) (e : Entry) → (front ++ e ∷ []) ++ back ≡ front ++ e ∷ back
  snoc-append [] back e = refl
  snoc-append (x ∷ front) back e = ap (◌∷◌ x) (snoc-append front back e)

  replay-admit_all :
      (front back : Store) (l : Log)
      → replay p (front ++ back) (length back) (length front) l ≡ admit_all back l
  unfolding replay admit_all
  replay-admit_all front [] l = refl
  replay-admit_all front (e ∷ back) l =
      let next : (leaf : Hash)
          → replay p (front ++ e ∷ back) (length back) (suc (length front)) (admit leaf l)
            ≡ admit_all back (admit leaf l) =
        λ leaf.
          subst
            (λ s.
              replay p s (length back) (suc (length front)) (admit leaf l)
              ≡ admit_all back (admit leaf l))
            (snoc-append front back e)
            (subst
              (λ n.
                replay p ((front ++ e ∷ []) ++ back) (length back) n (admit leaf l)
                ≡ admit_all back (admit leaf l))
              (omega (arith, length-append front (e ∷ [])))
              (replay-admit_all (front ++ e ∷ []) back (admit leaf l))) in
      elim (Result-cases (check p l e)) [
        | inl (leaf, h) ↦ ground (arith, at-middle front back e, h, next leaf)
        | inr (x, h) ↦ ground (arith, at-middle front back e, h)
      ]

  -- OpenLog reads the store once, from its start.
  pub open_log-admit_all :
      (operator : Bytes) (s : Store)
      → length operator ≡ public_key_size
      → open_log p operator s ≡ admit_all s (empty_log operator)
  unfolding open_log len
  open_log-admit_all operator s h = ground (arith, replay-admit_all [] s (empty_log operator))

  pub open_log-operator :
      (operator : Bytes) (s : Store) {l : Log}
      → open_log p operator s ≡ ok l
      → length operator ≡ public_key_size
  unfolding open_log
  open_log-operator operator s h = elim (Bool-cases (length operator == public_key_size)) [
    | inl e ↦ ground arith
    | inr e ↦ absurd (ground arith)
  ]

  admit_all-snoc :
      (es : List Entry) (e : Entry) (leaf : Hash) (l l' : Log)
      → admit_all es l ≡ ok l'
      → check p l' e ≡ ok leaf
      → admit_all (es ++ e ∷ []) l ≡ ok (admit leaf l')
  unfolding admit_all
  admit_all-snoc [] e leaf l l' h c = ground (arith, c)
  admit_all-snoc (x ∷ es) e leaf l l' h c = elim (Result-cases (check p l x)) [
    | inl (id, found) ↦
        ground (arith, found, admit_all-snoc es e leaf (admit id l) l' (ground (arith, found)) c)
    | inr (x, failed) ↦ absurd (ground (arith, failed))
  ]

  append-steps :
      (e : Entry) (l l' : Log) (s s' : Store) {seq : ℕ}
      → append p e l s ≡ ok (seq, l', s')
      → (leaf : Hash) × (check p l e ≡ ok leaf)
        × (l' ≡ admit leaf l)
        × (s' ≡ s ++ e ∷ [])
        × (seq ≡ length l.leafs)
  unfolding append persist
  append-steps e l l' s s' h = elim (Result-cases (check p l e)) [
    | inl (leaf, found) ↦
        (leaf, found, ground (arith, found), ground (arith, found), ground (arith, found))
    | inr (x, failed) ↦ absurd (ground (arith, failed))
  ]

  -- Let OpenLog open a store and Append accept an entry. Then OpenLog opens the store with the entry as the
  -- same log that Append leaves, and the position returned is the number of entries before.
  pub append-reopens :
      (operator : Bytes) (e : Entry) (l l' : Log) (s s' : Store) (seq : ℕ)
      → open_log p operator s ≡ ok l
      → append p e l s ≡ ok (seq, l', s')
      → (open_log p operator s' ≡ ok l') × (seq ≡ length l.leafs)
  append-reopens operator e l l' s s' seq opened h =
      let key = open_log-operator operator s opened in
      let (leaf, found, after, stored, position) = append-steps e l l' s s' h in
      let again =
        admit_all-snoc s e leaf (empty_log operator) l
          (sym (open_log-admit_all operator s key) ∙ opened) found in
      (rw (stored, after) (open_log-admit_all operator (s ++ e ∷ []) key ∙ again), position)

  admit_all-id : (es : List Entry) (l l' : Log) → admit_all es l ≡ ok l' → l'.id ≡ l.id
  unfolding admit_all admit
  admit_all-id [] l l' h = ground arith
  admit_all-id (e ∷ es) l l' h = elim (Result-cases (check p l e)) [
    | inl (leaf, found) ↦ admit_all-id es (admit leaf l) l' (ground (arith, found))
    | inr (x, failed) ↦ absurd (ground (arith, failed))
  ]

  pub open_log-id :
      (operator : Bytes) (s : Store) {l : Log}
      → open_log p operator s ≡ ok l
      → l.id ≡ log_id p operator
  open_log-id operator s {l} h =
      admit_all-id s (empty_log operator) l
        (sym (open_log-admit_all operator s (open_log-operator operator s h)) ∙ h)
