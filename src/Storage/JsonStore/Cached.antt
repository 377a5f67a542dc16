-- ===== src/Storage/JsonStore/Cached.antt =====
-- The cache of the scan: it never shows in what the store answers.
use Prim.Native.String.{String}
use kitt.Prelude.{
  ℕ, Bool, true, false, Option, none, some, List, [], ◌∷◌, ◌≡◌, refl, ap, sym, ◌∙◌, ◌⊎◌, inl, inr,
  if◌then◌else◌,
}
use kitt.Prelude.Exec.{Result, ok, raised, Exec, pure, gets, modify, continue, ◌>>=◌}
use kitt.Prelude.Floats.{FloatOps}
use kitt.Prelude.Paths.{FilePath}
use kitt.Storage.Json.{Json, Row, to_fields}
use kitt.Storage.Files.{File, scan_files, write, unlink, parsed}
use kitt.Storage.JsonStore.{
  Store, Order, invalidate_cache, fill_cache, scan, scan_results, put_file, remove_file,
  save_result, get_result, query, list_results, count, delete_first, delete_result, settle, known,
  exists, Operation, saving, getting, querying, listing, counting, deleting, perform, perform_all,
}

module _ (ops : FloatOps) (make_id : FilePath → String) where
  -- The cache is empty or holds the rows of the files.
  pub record IsFresh (s : Store) : Type 0 where
    pub cached :
        (s.cache ≡ none)
        ⊎ ((rows : List Row) × (s.cache ≡ some rows)
            × (scan_files ops make_id s.base_dir s.files ≡ ok rows))

  empty-IsFresh : (s : Store) → s.cache ≡ none → IsFresh s
  empty-IsFresh s e = record { cached = inl e }

  -- The scan as it is seen: the rows of the files, with no change but to the cache.
  pub record Scanned (s : Store) : Type 0 where
    pub after : Store
    pub gives : scan_results ops make_id s ≡ (scan_files ops make_id s.base_dir s.files, after)
    pub same_files : after.files ≡ s.files
    pub same_base : after.base_dir ≡ s.base_dir
    pub fresh : IsFresh after

  scan_again :
      (r : Result (List Row)) (s : Store)
      → s.cache ≡ none
      → scan_files ops make_id s.base_dir s.files ≡ r
      → Scanned s
  unfolding scan_results known scan settle pure gets modify ◌>>=◌ fill_cache
  scan_again (ok rows) s c e = record {
    after = fill_cache rows s;
    gives = rw (c, e) refl;
    same_files = refl;
    same_base = refl;
    fresh = record { cached = inr (rows, refl, e) };
  }
  scan_again (raised x) s c e = record {
    after = s;
    gives = rw (c, e) refl;
    same_files = refl;
    same_base = refl;
    fresh = empty-IsFresh s c;
  }

  pub scan_results-Scanned : (s : Store) → IsFresh s → Scanned s
  unfolding scan_results known scan settle pure gets modify ◌>>=◌ fill_cache
  scan_results-Scanned s h = elim h.cached [
    | inl c ↦ scan_again (scan_files ops make_id s.base_dir s.files) s c refl
    | inr (rows, c, e) ↦ record {
      after = s;
      gives = rw (c, e) refl;
      same_files = refl;
      same_base = refl;
      fresh = h;
    }
  ]

  -- Stores that differ in their caches at most, and each cache is fresh.
  pub record Alike (s t : Store) : Type 0 where
    pub same_files : s.files ≡ t.files
    pub same_base : s.base_dir ≡ t.base_dir
    pub fresh_left : IsFresh s
    pub fresh_right : IsFresh t

  -- From such stores the action gives the same and leads to such stores.
  pub record Agrees {A : Type 0} (m : Exec Store A) : Type 0 where
    pub agree : (s t : Store) → Alike s t → ((m s).0 ≡ (m t).0) × Alike (m s).1 (m t).1

  Agrees-pure : {A : Type 0} (a : A) → Agrees (pure {S = Store} a)
  unfolding pure
  Agrees-pure a = record { agree = λ s t h. (refl, h) }

  Agrees-settle : {A : Type 0} (r : Result A) → Agrees (settle r)
  unfolding settle
  Agrees-settle r = record { agree = λ s t h. (refl, h) }

  continue-agree :
      {A B : Type 0} (k : A → Exec Store B)
      → ((a : A) → Agrees (k a))
      → (r : Result A) (s t : Store) → Alike s t
      → ((continue r k s).0 ≡ (continue r k t).0) × Alike (continue r k s).1 (continue r k t).1
  continue-agree k ak (ok a) s t h = (ak a).agree s t h
  continue-agree k ak (raised e) s t h = (refl, h)

  Agrees-bind :
      {A B : Type 0} (m : Exec Store A) (k : A → Exec Store B)
      → Agrees m
      → ((a : A) → Agrees (k a))
      → Agrees (m >>= k)
  unfolding ◌>>=◌
  Agrees-bind m k am ak = record {
    agree = λ s t h.
        let (e, h') = am.agree s t h in rw e (continue-agree k ak (m t).0 (m s).1 (m t).1 h');
  }

  Agrees-scan_results : Agrees (scan_results ops make_id)
  Agrees-scan_results = record {
    agree = λ s t h.
        let a = scan_results-Scanned s h.fresh_left in
        let b = scan_results-Scanned t h.fresh_right in
        (
          rw (a.gives, b.gives) (rw (h.same_files, h.same_base) refl),
          rw (a.gives, b.gives)
              (record {
                same_files = a.same_files ∙ h.same_files ∙ sym b.same_files;
                same_base = a.same_base ∙ h.same_base ∙ sym b.same_base;
                fresh_left = a.fresh;
                fresh_right = b.fresh;
              }),
        );
  }

  Agrees-gets :
      {A : Type 0} (f : Store → A) → ((s t : Store) → Alike s t → f s ≡ f t) → Agrees (gets f)
  unfolding gets
  Agrees-gets f same = record { agree = λ s t h. (ap ok (same s t h), h) }

  Agrees-base : Agrees (gets (λ s. s.base_dir))
  Agrees-base = Agrees-gets (λ s. s.base_dir) (λ s t h. h.same_base)

  Agrees-exists : (p : FilePath) → Agrees (gets (exists p))
  unfolding exists
  Agrees-exists p = Agrees-gets (exists p) (λ s t h. rw h.same_files refl)

  Agrees-if :
      {A : Type 0} (b : Bool) (m n : Exec Store A)
      → Agrees m
      → Agrees n
      → Agrees (if b then m else n)
  Agrees-if true m n am an = am
  Agrees-if false m n am an = an

  -- A change of the files, and then a reset of the cache.
  Agrees-change :
      {A : Type 0} (change : List File → List File) (f : Store → Store)
      → ((s : Store) → f s ≡ record s { files = change s.files })
      → (k : Exec Store A) → Agrees k
      → Agrees (modify f >>= λ _. modify invalidate_cache >>= λ _. k)
  unfolding ◌>>=◌ modify invalidate_cache
  Agrees-change change f changes k ak = record {
    agree = λ s t h.
        let s' = invalidate_cache (record s { files = change s.files }) in
        let t' = invalidate_cache (record t { files = change t.files }) in
        let h' : Alike s' t' = record {
          same_files = ap change h.same_files;
          same_base = h.same_base;
          fresh_left = empty-IsFresh s' refl;
          fresh_right = empty-IsFresh t' refl;
        } in
        rw (changes s, changes t) (ak.agree s' t' h');
  }

  Agrees-put :
      {A : Type 0} (p : FilePath) (r : Row) (k : Exec Store A)
      → Agrees k
      → Agrees (modify (put_file p r) >>= λ _. modify invalidate_cache >>= λ _. k)
  unfolding put_file
  Agrees-put p r = Agrees-change (write p (parsed (Json.object (to_fields r)))) _ (λ s. refl)

  Agrees-remove :
      {A : Type 0} (p : FilePath) (k : Exec Store A)
      → Agrees k
      → Agrees (modify (remove_file p) >>= λ _. modify invalidate_cache >>= λ _. k)
  unfolding remove_file
  Agrees-remove p = Agrees-change (unlink p) _ (λ s. refl)

  ruleset agrees_rules = (
    Agrees-pure, Agrees-settle, Agrees-bind, Agrees-scan_results, Agrees-base, Agrees-exists,
    Agrees-if, Agrees-put, Agrees-remove,
  )

  Agrees-delete_first : (id : String) (rows : List Row) → Agrees (delete_first ops make_id id rows)
  unfolding delete_first
  Agrees-delete_first id [] = search agrees_rules
  Agrees-delete_first id (r ∷ rows) =
      let rest = Agrees-delete_first id rows in search agrees_rules depth 12

  Agrees-save_result : (r : Row) (uid : List ℕ) → Agrees (save_result ops make_id r uid)
  unfolding save_result
  Agrees-save_result r uid = search agrees_rules depth 12

  Agrees-get_result : (id : String) → Agrees (get_result ops make_id id)
  unfolding get_result
  Agrees-get_result id = search agrees_rules depth 9

  Agrees-query :
      (filters : List (String × Json)) (order : Option Order) (limit : Option ℕ) (offset : ℕ)
      → Agrees (query ops make_id filters order limit offset)
  unfolding query
  Agrees-query filters order limit offset = search agrees_rules depth 9

  Agrees-perform : (o : Operation) → Agrees (perform ops make_id o)
  unfolding perform list_results count delete_result
  Agrees-perform (saving r uid) = search (agrees_rules, Agrees-save_result) depth 9
  Agrees-perform (getting id) = search (agrees_rules, Agrees-get_result) depth 9
  Agrees-perform (querying filters order limit offset) = search (agrees_rules, Agrees-query) depth 9
  Agrees-perform listing = search agrees_rules depth 9
  Agrees-perform (counting filters) = search agrees_rules depth 9
  Agrees-perform (deleting id) = search (agrees_rules, Agrees-delete_first) depth 9

  -- Any operations one after the other answer the same on two stores of the same files and
  -- directory, where each cache is empty or holds the rows of the files.
  pub perform_all-uncached :
      (os : List Operation) (s t : Store)
      → Alike s t
      → perform_all ops make_id os s ≡ perform_all ops make_id os t
  unfolding perform_all
  perform_all-uncached [] s t h = refl
  perform_all-uncached (o ∷ os) s t h =
      let (e, h') = (Agrees-perform o).agree s t h in
      rw (e, perform_all-uncached os (perform ops make_id o s).1 (perform ops make_id o t).1 h')
        refl
