-- ===== src/Json/Project.antt =====
-- simplify_reslist of cJSON/manipulate_list.c: the list it writes has one object for each
-- resource, with the six members that the client reads.
use clpsz_demos.Base.{
  ◌≡◌, refl, sym, ap, ◌∙◌, Option, none, some, List, [], ◌∷◌, Bytes, All, codes, false,
  Option-cases, inl, inr,
}
use clpsz_demos.Json.{CJson, Laws}
use clpsz_demos.Json.Lists.{simplify_item, copy_member, copy_of, put_member, get_item}
use clpsz_demos.Json.Names.{same_name, lower}

-- The members that simplify_reslist copies, the last first.
abbrev pub kept : List Bytes
kept =
    codes "tags"
    ∷ codes "description"
    ∷ codes "resourceId"
    ∷ codes "title"
    ∷ codes "size"
    ∷ codes "type"
    ∷ []

module _ (J : CJson) where
  -- cJSON_Duplicate does not run out of memory.
  abbrev pub Copies : Type 0
  Copies = (v : J.Value) → J.duplicate v ≡ some v

  -- `new` has the members `names` of `ori`, and no others.
  pub record Selected (ori new : J.Value) (names : List Bytes) : Type 0 where
    pub same : All (λ name. J.object_item new name ≡ J.object_item ori name) names
    pub no_other :
        (l : Bytes) → All (λ name. same_name name l ≡ false) names → J.object_item new l ≡ none

module _ (J : CJson) (laws : Laws J) (copies : Copies J) (ori : J.Value) where
  same-add :
      (new v : J.Value) (name : Bytes) (names : List Bytes)
      → All (λ d. same_name name d ≡ false) names
      → All (λ d. J.object_item new d ≡ J.object_item ori d) names
      → All (λ d. J.object_item (J.add_to_object new name v) d ≡ J.object_item ori d) names
  same-add new v name [] apart same = tt
  same-add new v name (d ∷ names) apart same = (
    laws.object_item-other new v name d apart.0 ∙ same.0,
    same-add new v name names apart.1 same.1,
  )

  copy_member-Selected :
      (new : J.Value) (name : Bytes) (names : List Bytes)
      → All (λ d. same_name d name ≡ false) names
      → All (λ d. same_name name d ≡ false) names
      → Selected J ori new names
      → (value : J.Value) × (copy_member J (some ori) (some new) name ≡ some (some value))
        × Selected J ori value (name ∷ names)
  unfolding copy_member get_item put_member copy_of
  copy_member-Selected new name names fresh apart s = elim (Option-cases (J.object_item ori name)) [
    | inl missing ↦ (
      new,
      rw missing,
      record {
        same = (s.no_other name fresh ∙ sym missing, s.same);
        no_other = λ l others. s.no_other l others.1;
      },
    )
    | inr (v, found) ↦ (
      J.add_to_object new name v,
      rw (found, copies v),
      record {
        same = (
          laws.object_item-new new v name (s.no_other name fresh) ∙ sym found,
          same-add new v name names apart s.same,
        );
        no_other = λ l others. laws.object_item-other new v name l others.0 ∙ s.no_other l others.1;
      },
    )
  ]

  pub simplify_item-Selected :
      (o : J.Value)
      → J.create_object ≡ some o
      → (value : J.Value) × (simplify_item J (some ori) ≡ some (some value))
        × Selected J ori value kept
  unfolding simplify_item same_name lower
  simplify_item-Selected o created =
      let s0 : Selected J ori o [] = record {
        same = tt;
        no_other = λ l others. laws.object_item-create_object o l created;
      } in
      let (v1, e1, s1) = copy_member-Selected o (codes "type") [] tt tt s0 in
      let (v2, e2, s2) = copy_member-Selected v1 (codes "size") _ (refl, tt) (refl, tt) s1 in
      let (v3, e3, s3) =
        copy_member-Selected v2 (codes "title") _ (refl, (refl, tt)) (refl, (refl, tt)) s2 in
      let (v4, e4, s4) =
        copy_member-Selected v3 (codes "resourceId") _ (refl, (refl, (refl, tt)))
          (refl, (refl, (refl, tt))) s3 in
      let (v5, e5, s5) =
        copy_member-Selected v4 (codes "description") _ (refl, (refl, (refl, (refl, tt))))
          (refl, (refl, (refl, (refl, tt)))) s4 in
      let (v6, e6, s6) =
        copy_member-Selected v5 (codes "tags") _ (refl, (refl, (refl, (refl, (refl, tt)))))
          (refl, (refl, (refl, (refl, (refl, tt))))) s5 in
      let first =
        ap (λ (c : Option J.Value). copy_member J (some ori) c (codes "type")) created ∙ e1 in
      (v6, rw (first, e2, e3, e4, e5, e6), s6)
