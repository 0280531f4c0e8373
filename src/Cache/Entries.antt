-- ===== src/Cache/Entries.antt =====
-- The entries of the cache: how many, and what is found again.
use log_generator.Cache.{
  maximum_entries, LogPreparationCache, find, has_key, insert_or_assign, remove_at, insert_alias,
  publish, publish_unless,
}
use log_generator.Domain.{LogTemplate}
use log_generator.Prelude.{
  ℕ, zero, suc, ◌+◌, ◌%◌, ◌≤◌, ◌<◌, ◌≡◌, refl, inl, inr, false, not, ◌&&◌, List, [], ◌∷◌, Option,
  none, some, leb, Bytes, equal, equal_iff, length, if◌then◌else◌, Bool-cases, arith,
}
use native.Mathlib.Nat.{mod-lt}

module _ {E : Type 0} where
  find-insert_or_assign :
      (key : Bytes) (entry : E) (es : List (Bytes × E))
      → find key (insert_or_assign key entry es) ≡ some entry
  unfolding find insert_or_assign
  find-insert_or_assign key entry [] = rw ((equal_iff key key).1 refl)
  find-insert_or_assign key entry ((k, old) ∷ rest) = elim (Bool-cases (equal key k)) [
    | inl same ↦ rw same (rw same)
    | inr other ↦ rw other (rw other (find-insert_or_assign key entry rest))
  ]

  length-insert_or_assign :
      (key : Bytes) (entry : E) (es : List (Bytes × E))
      → length (insert_or_assign key entry es)
        ≡ (if has_key key es then length es else length es + 1)
  unfolding has_key insert_or_assign
  length-insert_or_assign key entry [] = omega arith
  length-insert_or_assign key entry ((k, old) ∷ rest) =
      ground (arith, length-insert_or_assign key entry rest)

  length-remove_at :
      (n : ℕ) (es : List (Bytes × E)) → n < length es → length (remove_at n es) + 1 ≡ length es
  unfolding remove_at
  length-remove_at n [] h = omega arith
  length-remove_at zero (e ∷ rest) h = omega arith
  length-remove_at (suc n) (e ∷ rest) h = omega (arith, length-remove_at n rest (omega arith))

  module _ (first : List (Bytes × E) → ℕ) where
    find-insert_alias :
        (key : Bytes) (entry : E) (es : List (Bytes × E))
        → find key (insert_alias first key entry es) ≡ some entry
    unfolding insert_alias
    find-insert_alias key entry es = find-insert_or_assign key entry _

    insert_alias-small :
        (key : Bytes) (entry : E) (es : List (Bytes × E))
        → length es ≤ maximum_entries
        → length (insert_alias first key entry es) ≤ maximum_entries
    unfolding insert_alias
    insert_alias-small key entry es h =
        elim (Bool-cases (leb maximum_entries (length es) && not (has_key key es))) [
          | inl full ↦ rw full (
              ground (
                arith,
                length-insert_or_assign key entry (remove_at (first es % length es) es),
                length-remove_at (first es % length es) es
                    (mod-lt (first es) {m = length es} (ground (arith, full))),
              ))
          | inr room ↦ rw room (ground (arith, length-insert_or_assign key entry es, room))
        ]

    module _ (tokenize : LogTemplate → LogTemplate) (compile : LogTemplate → E) where
      publish_unless-finds :
          (found : Option E) (original tokenized : Bytes) (entry : E) (c : LogPreparationCache E)
          → length c.entries ≤ maximum_entries
          → let r = publish_unless first tokenize compile found original tokenized entry c in
            (find original r.1.entries ≡ some r.0)
            × (length r.1.entries ≤ maximum_entries + 1)
            × (found ≡ none → length r.1.entries ≤ maximum_entries)
      unfolding publish_unless
      publish_unless-finds (some e) original tokenized entry c h = (
        find-insert_or_assign original e c.entries,
        ground (arith, length-insert_or_assign original e c.entries),
        λ k. cc k,
      )
      publish_unless-finds none original tokenized entry c h =
          elim (Bool-cases (equal original tokenized)) [
            | inl same ↦
                let small = insert_alias-small tokenized entry c.entries h in
                rw (same, (equal_iff original tokenized).0 same)
                  (find-insert_alias tokenized entry c.entries, omega (arith, small), λ _. small)
            | inr other ↦
                let small =
                  insert_alias-small original entry _
                    (insert_alias-small tokenized entry c.entries h) in
                rw other (find-insert_alias original entry _, omega (arith, small), λ _. small)
          ]

      -- If the cache holds at most 512 entries when a caller takes the lock, whatever others have put
      -- there since it looked, then the entry that it returns is found under its key afterwards, and
      -- the cache holds at most 513 entries; and at most 512, if no other caller was faster with the
      -- same tokenized template.
      pub publish-finds :
          (original tokenized : Bytes) (entry : E) (c : LogPreparationCache E)
          → length c.entries ≤ maximum_entries
          → let r = publish first tokenize compile original tokenized entry c in
            (find original r.1.entries ≡ some r.0)
            × (length r.1.entries ≤ maximum_entries + 1)
            × (find tokenized c.entries ≡ none → length r.1.entries ≤ maximum_entries)
      unfolding publish
      publish-finds original tokenized entry c h =
          publish_unless-finds (find tokenized c.entries) original tokenized entry c h

      -- If a full cache holds the tokenized key, because another caller was faster, and not the
      -- original one, then the limit is passed: the cache holds 513 entries.
      pub publish-exceeds :
          (original tokenized : Bytes) (entry other : E) (c : LogPreparationCache E)
          → length c.entries ≡ maximum_entries
          → find tokenized c.entries ≡ some other
          → has_key original c.entries ≡ false
          → length (publish first tokenize compile original tokenized entry c).1.entries ≡ 513
      unfolding publish publish_unless
      publish-exceeds original tokenized entry other c full here absent =
          rw here
            (rw (length-insert_or_assign original other c.entries) (ground (arith, full, absent)))
