-- ===== src/Central/FileBundles/Listing.antt =====
-- Writing the bundles of a file and reading them back (db/file_bundle.rs).
use fs.Prelude.{
  ℕ, suc, ◌+◌, ◌<◌, ◌≤◌, ◌≡◌, refl, sym, ap, ◌⊎◌, inl, inr, true, false, List, [], ◌∷◌, ◌++◌, map,
  any, length, num_eq, All, All-append, All-imp, arith,
}
use mathlib.Core.List.{append_assoc, append-nil}
use fs.Prelude.Rows.{
  select, delete, Ascends, order_by-sorted, select-append, select-delete, select-delete_other,
  delete-drops,
}
use fs.Core.Constants.{i64_mod}
use fs.Core.Error.{ok}
use fs.Core.Convert.{column-ok}
use fs.Core.Protocol.{CommittedBundle}
use fs.Central.Types.{CentralDb, FileBundleEntry, FileBundleRow}
use fs.Central.Leases.{file_exists}
use fs.Central.FileBundles.{
  of_file, is_at, entry_index, to_row, insert_entry, insert_from, delete_file_bundles_by_file_id,
  upsert_file_bundles_by_file_id, get_file_bundles_by_file_id,
}

-- The entries that the bundles stand for, numbered from an index on.
unfoldable entries_from : ℕ → ℕ → List CommittedBundle → List FileBundleEntry
entries_from file_id i [] = []
entries_from file_id i (b ∷ bs) =
    record { file_id = file_id; bundle_index = i; bundle_id = b.bundle_id }
    ∷ entries_from file_id (suc i) bs

-- The rows that a reader of the file gets for them.
unfoldable pub rows_from : ℕ → List CommittedBundle → List FileBundleRow
rows_from i [] = []
rows_from i (b ∷ bs) = record { bundle_index = i; bundle_id = b.bundle_id } ∷ rows_from (suc i) bs

-- Another file's entry, or one with a lower index.
abbrev IsBelow : ℕ → ℕ → FileBundleEntry → Type 0
IsBelow file_id i e = (of_file file_id e ≡ false) ⊎ (e.bundle_index < i)

any-is_at :
    (f i : ℕ) (es : List FileBundleEntry) → All (IsBelow f i) es → any (is_at f i) es ≡ false
any-is_at f i [] h = refl
any-is_at f i (e ∷ es) h = grind (arith, h.0, any-is_at f i es h.1)

with_entries : CentralDb → List FileBundleEntry → CentralDb
with_entries db es = record db { file_bundles = db.file_bundles ++ es }

insert_entry-ok :
    (e : FileBundleEntry) (db : CentralDb)
    → file_exists e.file_id db ≡ true
    → All (IsBelow e.file_id e.bundle_index) db.file_bundles
    → insert_entry e db ≡ (ok tt, with_entries db (e ∷ []))
unfolding insert_entry with_entries
insert_entry-ok e db h k = ground (arith, h, any-is_at e.file_id e.bundle_index db.file_bundles k)

insert_from-ok :
    (f i : ℕ) (bs : List CommittedBundle) (db : CentralDb)
    → f < i64_mod
    → i + length bs ≤ i64_mod
    → file_exists f db ≡ true
    → All (IsBelow f i) db.file_bundles
    → insert_from f i bs db ≡ (ok tt, with_entries db (entries_from f i bs))
unfolding insert_from entries_from with_entries
insert_from-ok f i [] db hf hi h k =
    ap (λ es. (ok tt, record db { file_bundles = es })) (sym (append-nil db.file_bundles))
insert_from-ok f i (b ∷ bs) db hf hi h k =
    let e : FileBundleEntry = record { file_id = f; bundle_index = i; bundle_id = b.bundle_id } in
    let one = insert_entry-ok e db h k in
    let later =
      All-append (IsBelow f (suc i)) db.file_bundles (e ∷ [])
        (All-imp (IsBelow f i) (IsBelow f (suc i)) db.file_bundles (λ x m. below x m) k)
        (inr (omega arith), tt) in
    let rest =
      insert_from-ok f (suc i) bs (with_entries db (e ∷ [])) hf (omega (arith, hi))
        (unfold with_entries in h) (unfold with_entries in later) in
    ground (
      arith,
      column-ok f "file_id" hf,
      column-ok i "bundle_index" (omega (arith, hi)),
      one,
      rest,
      append_assoc db.file_bundles (e ∷ []) (entries_from f (suc i) bs),
    )
  where
    below : (x : FileBundleEntry) → IsBelow f i x → IsBelow f (suc i) x
    below x (inl p) = inl p
    below x (inr p) = inr (omega (arith, p))

select-entries :
    (f i : ℕ) (bs : List CommittedBundle)
    → select (of_file f) (entries_from f i bs) ≡ entries_from f i bs
unfolding select entries_from
select-entries f i [] = refl
select-entries f i (b ∷ bs) = grind (arith, select-entries f (suc i) bs)

select-entries_other :
    (f g i : ℕ) (bs : List CommittedBundle)
    → num_eq f g ≡ false
    → select (of_file g) (entries_from f i bs) ≡ []
unfolding select entries_from
select-entries_other f g i [] h = refl
select-entries_other f g i (b ∷ bs) h = ground (arith, h, select-entries_other f g (suc i) bs h)

Ascends-less :
    (low high : ℕ) (es : List FileBundleEntry)
    → low ≤ high
    → Ascends entry_index high es
    → Ascends entry_index low es
Ascends-less low high [] h a = tt
Ascends-less low high (e ∷ es) h a = (omega (arith, h, a.0), a.1)

entries-Ascends :
    (f i : ℕ) (bs : List CommittedBundle) → Ascends entry_index i (entries_from f i bs)
unfolding entries_from
entries-Ascends f i [] = tt
entries-Ascends f i (b ∷ bs) = (
  omega arith,
  Ascends-less i (suc i) (entries_from f (suc i) bs) (omega arith) (entries-Ascends f (suc i) bs),
)

map-entries :
    (f i : ℕ) (bs : List CommittedBundle) → map to_row (entries_from f i bs) ≡ rows_from i bs
unfolding entries_from rows_from
map-entries f i [] = refl
map-entries f i (b ∷ bs) = ground (arith, map-entries f (suc i) bs)

written : ℕ → List CommittedBundle → CentralDb → CentralDb
written f bs db = record db {
  file_bundles = delete (of_file f) db.file_bundles ++ entries_from f 0 bs;
}

upsert-written :
    (f : ℕ) (bs : List CommittedBundle) (db : CentralDb)
    → f < i64_mod
    → length bs ≤ i64_mod
    → file_exists f db ≡ true
    → upsert_file_bundles_by_file_id f bs db ≡ (ok tt, written f bs db)
unfolding upsert_file_bundles_by_file_id written with_entries delete_file_bundles_by_file_id
upsert-written f bs db hf hl h =
    let cleared : CentralDb = record db { file_bundles = delete (of_file f) db.file_bundles } in
    let all = insert_from-ok f 0 bs cleared hf (omega (arith, hl)) h (
      All-imp (λ e. of_file f e ≡ false) (IsBelow f 0) (delete (of_file f) db.file_bundles)
        (λ e p. inl p) (delete-drops (of_file f) db.file_bundles)) in
    ground (arith, column-ok f "file_id" hf, all)

get-written :
    (f : ℕ) (bs : List CommittedBundle) (db : CentralDb)
    → f < i64_mod
    → get_file_bundles_by_file_id f (written f bs db) ≡ (ok (rows_from 0 bs), written f bs db)
unfolding get_file_bundles_by_file_id written
get-written f bs db hf = ground (
  arith,
  column-ok f "file_id" hf,
  select-append (of_file f) (delete (of_file f) db.file_bundles) (entries_from f 0 bs),
  select-delete (of_file f) db.file_bundles,
  select-entries f 0 bs,
  order_by-sorted entry_index 0 (entries_from f 0 bs) (entries-Ascends f 0 bs),
  map-entries f 0 bs,
)

get-written_other :
    (f g : ℕ) (bs : List CommittedBundle) (db : CentralDb)
    → g < i64_mod
    → num_eq f g ≡ false
    → (get_file_bundles_by_file_id g (written f bs db)).0 ≡ (get_file_bundles_by_file_id g db).0
unfolding get_file_bundles_by_file_id written
get-written_other f g bs db hg h = ground (
  arith,
  column-ok g "file_id" hg,
  select-append (of_file g) (delete (of_file f) db.file_bundles) (entries_from f 0 bs),
  select-delete_other (of_file g) (of_file f) db.file_bundles (λ e p. grind (arith, h, p)),
  select-entries_other f g 0 bs h,
  append-nil (select (of_file g) db.file_bundles),
)

-- Writing the bundles of a file that exists succeeds; what is read back for that file is the list
-- that was written, numbered from 0, and what is read for another file is what was read before.
pub get_file_bundles-upsert :
    (f g : ℕ) (bs : List CommittedBundle) (db : CentralDb)
    → f < i64_mod
    → g < i64_mod
    → num_eq f g ≡ false
    → length bs ≤ i64_mod
    → file_exists f db ≡ true
    → ((upsert_file_bundles_by_file_id f bs db).0 ≡ ok tt)
      × ((get_file_bundles_by_file_id f (upsert_file_bundles_by_file_id f bs db).1).0
          ≡ ok (rows_from 0 bs))
      × ((get_file_bundles_by_file_id g (upsert_file_bundles_by_file_id f bs db).1).0
          ≡ (get_file_bundles_by_file_id g db).0)
get_file_bundles-upsert f g bs db hf hg d hl h =
    rw (upsert-written f bs db hf hl h)
      (refl, ap (λ r. r.0) (get-written f bs db hf), get-written_other f g bs db hg d)
