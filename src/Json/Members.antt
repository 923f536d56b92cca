-- ===== src/Json/Members.antt =====
-- The two members of the object that simplify_category of cJSON/manipulate_list.c writes.
use clpsz_demos.Base.{
  ◌≡◌, refl, ◌∙◌, Option, none, some, Bytes, Bool, true, false, if◌then◌else◌, codes,
}
use clpsz_demos.Json.{CJson, Laws}
use clpsz_demos.Json.Names.{same_name, lower}

-- The first of two values that is there.
abbrev pub first_or {ℓ} : {A : Type ℓ} → Option A → Option A → Option A
first_or none b = b
first_or (some a) b = some a

-- A value under a condition.
abbrev pub only {ℓ} : {A : Type ℓ} → Bool → A → Option A
only true a = some a
only false a = none

pub first_or-only {ℓ} :
    {A : Type ℓ} (g : Option A) (b : Bool) (a : A) (later : Option A)
    → first_or (first_or g (only b a)) later ≡ first_or g (if b then some a else later)
first_or-only none true a later = refl
first_or-only none false a later = refl
first_or-only (some v) b a later = refl

pub first_or-none {ℓ} : {A : Type ℓ} (g : Option A) → first_or g none ≡ g
first_or-none none = refl
first_or-none (some v) = refl

module _ (J : CJson) where
  -- Looking up the two names in an object gives `g` and `a`, and looking up any other gives
  -- nothing.
  pub record Holds (o : J.Value) (g a : Option J.Value) : Type 0 where
    pub game_item : J.object_item o (codes "game") ≡ g
    pub app_item : J.object_item o (codes "app") ≡ a
    pub no_other :
        (l : Bytes)
        → same_name (codes "game") l ≡ false
        → same_name (codes "app") l ≡ false
        → J.object_item o l ≡ none

  pub Holds-same :
      {o : J.Value} {g g' a a' : Option J.Value} → g ≡ g' → a ≡ a' → Holds o g a → Holds o g' a'
  Holds-same e d h = record {
    game_item = h.game_item ∙ e;
    app_item = h.app_item ∙ d;
    no_other = h.no_other;
  }

module _ (J : CJson) (laws : Laws J) where
  pub add_game :
      (o tag : J.Value) (g a : Option J.Value)
      → Holds J o g a
      → Holds J (J.add_to_object o (codes "game") tag) (first_or g (some tag)) a
  unfolding same_name lower
  add_game o tag none a h = record {
    game_item = laws.object_item-new o tag (codes "game") h.game_item;
    app_item = laws.object_item-other o tag (codes "game") (codes "app") refl ∙ h.app_item;
    no_other = λ l ng na. laws.object_item-other o tag (codes "game") l ng ∙ h.no_other l ng na;
  }
  add_game o tag (some v) a h = record {
    game_item = laws.object_item-first o tag v (codes "game") h.game_item;
    app_item = laws.object_item-other o tag (codes "game") (codes "app") refl ∙ h.app_item;
    no_other = λ l ng na. laws.object_item-other o tag (codes "game") l ng ∙ h.no_other l ng na;
  }

  pub add_app :
      (o tag : J.Value) (g a : Option J.Value)
      → Holds J o g a
      → Holds J (J.add_to_object o (codes "app") tag) g (first_or a (some tag))
  unfolding same_name lower
  add_app o tag g none h = record {
    game_item = laws.object_item-other o tag (codes "app") (codes "game") refl ∙ h.game_item;
    app_item = laws.object_item-new o tag (codes "app") h.app_item;
    no_other = λ l ng na. laws.object_item-other o tag (codes "app") l na ∙ h.no_other l ng na;
  }
  add_app o tag g (some v) h = record {
    game_item = laws.object_item-other o tag (codes "app") (codes "game") refl ∙ h.game_item;
    app_item = laws.object_item-first o tag v (codes "app") h.app_item;
    no_other = λ l ng na. laws.object_item-other o tag (codes "app") l na ∙ h.no_other l ng na;
  }
