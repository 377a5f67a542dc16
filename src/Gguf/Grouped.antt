-- ===== src/Gguf/Grouped.antt =====
-- The groups of discover_gguf_quants.
use kitt.Prelude.{
  ℕ, ◌≤◌, Bool, true, false, some, List, [], ◌∷◌, ◌++◌, map, select, count_if, if◌then◌else◌, ◌≡◌,
  refl, ap, sym, ◌∙◌, arith, Bool-cases, inl, inr, append_assoc, append-nil,
}
use kitt.Prelude.Text.{same_text}
use kitt.Prelude.Text.Same.{same_text_refl, same_text-eq}
use kitt.Prelude.Paths.{text_before}
use kitt.Prelude.Sorting.{sorted}
use kitt.Gguf.Discover.{
  GgufQuantInfo, Groups, quant_of, append_to, group_from, gguf_files, discover_gguf_quants,
  quant_info,
}

-- The files of the first group of a name.
grouped : List ℕ → Groups → List (List ℕ)
unfolding same_text
grouped q [] = []
grouped q ((k, files) ∷ groups) = if same_text k q then files else grouped q groups

-- The files of the first quantization of a name.
unfoldable pub files_of : List ℕ → List GgufQuantInfo → List (List ℕ)
files_of q [] = []
files_of q (info ∷ infos) = if same_text info.quant_name q then info.files else files_of q infos

different : (j k q : List ℕ) → same_text j k ≡ false → same_text j q ≡ true → same_text k q ≡ false
different j k q other same = elim (Bool-cases (same_text k q)) [
  | inl both ↦
      let e : j ≡ k = same_text-eq j q same ∙ sym (same_text-eq k q both) in
      let t : same_text j k ≡ true = rw e (same_text_refl k) in absurd (cc (t, other))
  | inr f ↦ f
]

grouped-append_to :
    (q k f : List ℕ) (groups : Groups)
    → grouped q (append_to k f groups)
      ≡ (if same_text k q then grouped q groups ++ (f ∷ []) else grouped q groups)
unfolding grouped append_to
grouped-append_to q k f [] = refl
grouped-append_to q k f ((j, files) ∷ groups) = elim (Bool-cases (same_text j k)) [
  | inl same ↦
      let e : same_text k q ≡ same_text j q =
        ap (λ x. same_text x q) (sym (same_text-eq j k same)) in
      rw same (rw e (ground arith))
  | inr other ↦ rw other (ground (arith, grouped-append_to q k f groups, different j k q other))
]

grouped-group_from :
    (q : List ℕ) (groups : Groups) (files : List (List ℕ))
    → grouped q (group_from groups files)
      ≡ grouped q groups ++ select (λ f. same_text (quant_of f) q) files
unfolding group_from
grouped-group_from q groups [] = sym (append-nil (grouped q groups))
grouped-group_from q groups (f ∷ files) =
    grouped-group_from q (append_to (quant_of f) f groups) files
    ∙ rw (grouped-append_to q (quant_of f) f groups) (elim (Bool-cases (same_text (quant_of f) q)) [
      | inl t ↦ rw t (append_assoc (grouped q groups) (f ∷ []) _)
      | inr n ↦ rw n refl
    ])

files_of-quants :
    (q : List ℕ) (groups : Groups)
    → files_of q (map quant_info groups) ≡ sorted text_before (grouped q groups)
unfolding files_of grouped quant_info sorted
files_of-quants q [] = refl
files_of-quants q ((k, files) ∷ groups) = ground (arith, files_of-quants q groups)

-- Whether a group, or a quantization, has the name.
abbrev is_named : List ℕ → List ℕ × List (List ℕ) → Bool
is_named q group = same_text group.0 q

named-append_other :
    (q k f : List ℕ) (groups : Groups)
    → same_text k q ≡ false
    → count_if (is_named q) (append_to k f groups) ≡ count_if (is_named q) groups
unfolding append_to
named-append_other q k f [] h = rw h refl
named-append_other q k f ((j, files) ∷ groups) h = elim (Bool-cases (same_text j k)) [
  | inl same ↦ rw same refl
  | inr other ↦ rw (other, named-append_other q k f groups h) refl
]

named-append_to :
    (q k f : List ℕ) (groups : Groups)
    → count_if (is_named q) groups ≤ 1
    → count_if (is_named q) (append_to k f groups) ≤ 1
unfolding append_to
named-append_to q k f [] h = ground arith
named-append_to q k f ((j, files) ∷ groups) h = elim (Bool-cases (same_text j k)) [
  | inl same ↦ rw same (ground arith)
  | inr other ↦ rw other (elim (Bool-cases (same_text j q)) [
    | inl t ↦ rw (t, named-append_other q k f groups (different j k q other t)) (rw t at h)
    | inr n ↦ rw n (named-append_to q k f groups (rw n at h))
  ])
]

named-group_from :
    (q : List ℕ) (groups : Groups) (files : List (List ℕ))
    → count_if (is_named q) groups ≤ 1
    → count_if (is_named q) (group_from groups files) ≤ 1
unfolding group_from
named-group_from q groups [] h = h
named-group_from q groups (f ∷ files) h =
    named-group_from q (append_to (quant_of f) f groups) files
      (named-append_to q (quant_of f) f groups h)

named-quants :
    (q : List ℕ) (groups : Groups)
    → count_if (λ info. same_text info.quant_name q) (map quant_info groups)
      ≡ count_if (is_named q) groups
unfolding quant_info
named-quants q [] = refl
named-quants q ((k, files) ∷ groups) = rw (named-quants q groups) refl

-- For each name at most one quantization is discovered, and its files are the GGUF files of the
-- repository with this name, in order.
pub discover_gguf_quants-files :
    (all_files : List (List ℕ)) (q : List ℕ)
    → (files_of q (discover_gguf_quants (some all_files))
        ≡ sorted text_before (select (λ f. same_text (quant_of f) q) (gguf_files all_files)))
      × (count_if (λ info. same_text info.quant_name q) (discover_gguf_quants (some all_files)) ≤ 1)
unfolding discover_gguf_quants grouped
discover_gguf_quants-files all_files q =
    let groups = group_from [] (gguf_files all_files) in
    let named : count_if (is_named q) groups ≤ 1 =
      named-group_from q [] (gguf_files all_files) (omega arith) in
    (
      files_of-quants q groups
          ∙ ap (sorted text_before) (grouped-group_from q [] (gguf_files all_files)),
      omega (arith, named, named-quants q groups),
    )
