-- ===== src/Json/Sample.antt =====
-- A type of JSON values that meets the interface, for concrete inputs.
use mcpstead.Base.{
  ℕ, suc, ◌<◌, max, String, Bool, true, false, ◌&&◌, ◌≡◌, refl, ◌↔◌, ap, Option, none, some, List,
  [], ◌∷◌, arith, All, str_eq, eq_iff, eq_refl, if◌then◌else◌,
}
use mcpstead.Base.Int.{ℤ, int_beq, int_iff}
use mcpstead.Base.Eq.{bool_beq, bool_beq_iff}
use mcpstead.Json.{Json, JsonLaws}

mutual
  pub data Val : Type 0 where
    nothing : Val
    flag : Bool → Val
    num : ℤ → Val
    text : String → Val
    arr : Items → Val
    obj : Fields → Val

  pub data Items : Type 0 where
    nil : Items
    cons : Val → Items → Items

  pub data Fields : Type 0 where
    end : Fields
    entry : String → Val → Fields → Fields

unfoldable mutual
  pub val_beq : Val → Val → Bool
  val_beq nothing nothing = true
  val_beq (flag a) (flag b) = bool_beq a b
  val_beq (num a) (num b) = int_beq a b
  val_beq (text a) (text b) = str_eq a b
  val_beq (arr a) (arr b) = items_beq a b
  val_beq (obj a) (obj b) = fields_beq a b
  val_beq _ _ = false

  pub items_beq : Items → Items → Bool
  items_beq nil nil = true
  items_beq (cons a as') (cons b bs) = val_beq a b && items_beq as' bs
  items_beq _ _ = false

  pub fields_beq : Fields → Fields → Bool
  fields_beq end end = true
  fields_beq (entry k a as') (entry l b bs) = str_eq k l && val_beq a b && fields_beq as' bs
  fields_beq _ _ = false

all_three : (p q r : Bool) → (p && q && r) ≡ true → (p ≡ true) × (q ≡ true) × (r ≡ true)
all_three p q r h = ground arith

mutual
  unfolding val_beq

  val_sound : (a b : Val) → val_beq a b ≡ true → a ≡ b
  val_sound nothing nothing h = refl
  val_sound (flag a) (flag b) h = ground (arith, bool_beq_iff a b)
  val_sound (num a) (num b) h = ground (arith, int_iff a b)
  val_sound (text a) (text b) h = ground (arith, eq_iff a b)
  val_sound (arr a) (arr b) h = ap arr (items_sound a b h)
  val_sound (obj a) (obj b) h = ap obj (fields_sound a b h)
  val_sound _ _ h = cc

  items_sound : (a b : Items) → items_beq a b ≡ true → a ≡ b
  items_sound nil nil h = refl
  items_sound (cons a as') (cons b bs) h = ground (arith, val_sound a b, items_sound as' bs)
  items_sound _ _ h = cc

  fields_sound : (a b : Fields) → fields_beq a b ≡ true → a ≡ b
  fields_sound end end h = refl
  fields_sound (entry k a as') (entry l b bs) h =
      let parts = all_three (str_eq k l) (val_beq a b) (fields_beq as' bs) h in
      cc ((eq_iff k l).0 parts.0, val_sound a b parts.1, fields_sound as' bs parts.2)
  fields_sound _ _ h = cc

mutual
  unfolding val_beq

  val_refl : (a : Val) → val_beq a a ≡ true
  val_refl nothing = refl
  val_refl (flag a) = ground (arith, bool_beq_iff a a)
  val_refl (num a) = ground (arith, int_iff a a)
  val_refl (text a) = eq_refl a
  val_refl (arr a) = items_refl a
  val_refl (obj a) = fields_refl a

  items_refl : (a : Items) → items_beq a a ≡ true
  items_refl nil = refl
  items_refl (cons a as') = ground (arith, val_refl a, items_refl as')

  fields_refl : (a : Fields) → fields_beq a a ≡ true
  fields_refl end = refl
  fields_refl (entry k a as') = ground (arith, eq_refl k, val_refl a, fields_refl as')

pub val_iff : (a b : Val) → (val_beq a b ≡ true) ↔ (a ≡ b)
val_iff a b = (val_sound a b, λ e. rw (← e) (val_refl a))

unfoldable mutual
  pub val_depth : Val → ℕ
  val_depth (arr vs) = suc (items_depth vs)
  val_depth _ = 0

  pub items_depth : Items → ℕ
  items_depth nil = 0
  items_depth (cons v vs) = max (val_depth v) (items_depth vs)

abbrev pub listed : Items → List Val
listed nil = []
listed (cons v vs) = v ∷ listed vs

abbrev pub of_list : List Val → Items
of_list [] = nil
of_list (v ∷ vs) = cons v (of_list vs)

abbrev pub as_array : Val → Option (List Val)
as_array (arr vs) = some (listed vs)
as_array _ = none

abbrev pub as_text : Val → Option String
as_text (text s) = some s
as_text _ = none

abbrev pub as_flag : Val → Option Bool
as_flag (flag b) = some b
as_flag _ = none

abbrev pub as_num : Val → Option ℤ
as_num (num n) = some n
as_num _ = none

abbrev pub as_fields : Val → Option Fields
as_fields (obj fs) = some fs
as_fields _ = none

abbrev pub fields_get : String → Fields → Option Val
fields_get k end = none
fields_get k (entry l v fs) = if str_eq l k then some v else fields_get k fs

abbrev pub fields_insert : String → Val → Fields → Fields
fields_insert k v end = entry k v end
fields_insert k v (entry l w fs) =
    if str_eq l k then entry k v fs else entry l w (fields_insert k v fs)

abbrev pub val_field : String → Val → Option Val
val_field k (obj fs) = fields_get k fs
val_field k _ = none

pub fields_get-insert :
    (k l : String) (v : Val) (fs : Fields)
    → fields_get l (fields_insert k v fs) ≡ (if str_eq k l then some v else fields_get l fs)
fields_get-insert k l v end = refl
fields_get-insert k l v (entry i w fs) =
    ground (arith, eq_iff k l, eq_iff i k, eq_iff i l, fields_get-insert k l v fs)

pub listed-of_list : (vs : List Val) → listed (of_list vs) ≡ vs
listed-of_list [] = refl
listed-of_list (v ∷ vs) = ap (λ (r : List Val). v ∷ r) (listed-of_list vs)

All-below : (n : ℕ) (vs : Items) → items_depth vs < n → All (λ u. val_depth u < n) (listed vs)
unfolding val_depth
All-below n nil h = tt
All-below n (cons v vs) h = (omega arith, All-below n vs (omega arith))

pub sample_depth :
    (v : Val) (vs : List Val) → as_array v ≡ some vs → All (λ u. val_depth u < val_depth v) vs
unfolding val_depth
sample_depth (arr items) vs h =
    let e : listed items ≡ vs = cc in
    rw (← e) (All-below (suc (items_depth items)) items (omega arith))
sample_depth nothing vs h = cc
sample_depth (flag b) vs h = cc
sample_depth (num n) vs h = cc
sample_depth (text s) vs h = cc
sample_depth (obj fs) vs h = cc

-- its texts are read by `read` and written as one word
abbrev pub sample_json : (String → Option Val) → Json
sample_json read = record {
  Value = Val;
  Map = Fields;
  beq = val_beq;
  null = nothing;
  string = text;
  bool = flag;
  int = num;
  array = λ vs. arr (of_list vs);
  of_map = obj;
  as_str = as_text;
  as_bool = as_flag;
  as_i64 = as_num;
  as_array = as_array;
  as_object = as_fields;
  field = val_field;
  map_new = end;
  map_get = fields_get;
  map_insert = fields_insert;
  from_str = read;
  to_string = λ _. "json";
  depth = val_depth;
}

pub sample_laws : (read : String → Option Val) → JsonLaws (sample_json read)
sample_laws read = record {
  beq_iff = val_iff;
  as_str-string = λ s. refl;
  as_object-of_map = λ m. refl;
  as_array-of_map = λ m. refl;
  as_array-array = λ vs. ap some (listed-of_list vs);
  field-of_map = λ k m. refl;
  field-array = λ k vs. refl;
  map_get-new = λ k. refl;
  map_get-insert = fields_get-insert;
  depth-items = sample_depth;
}
