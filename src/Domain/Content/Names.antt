-- ===== src/Domain/Content/Names.antt =====
-- The names and ids of native/domain/content.cpp name each type and category once.
use rats_search_tui.Base.{
  ℤ, ◌≡◌, ◌≢◌, refl, ap, sym, ◌∙◌, ◌↔◌, Text, codes, eq_text→eq, to_lower, arith,
}
use rats_search_tui.Domain.Content.{
  ContentType, ContentCategory, type_to_string, category_to_string, content_type_from_string,
  content_category_from_string, type_to_id, category_to_id, content_type_from_id,
  content_category_from_id,
}

pub type_from-to_string : (t : ContentType) → content_type_from_string (type_to_string t) ≡ t
unfolding content_type_from_string type_to_string to_lower
type_from-to_string ContentType.video = refl
type_from-to_string _ = refl

pub category_from-to_string :
    (c : ContentCategory) → content_category_from_string (category_to_string c) ≡ c
unfolding content_category_from_string category_to_string to_lower
category_from-to_string ContentCategory.movie = refl
category_from-to_string _ = refl

pub type_from-to_id : (t : ContentType) → content_type_from_id (type_to_id t) ≡ t
unfolding content_type_from_id
type_from-to_id ContentType.video = refl
type_from-to_id _ = refl

pub category_from-to_id : (c : ContentCategory) → content_category_from_id (category_to_id c) ≡ c
unfolding content_category_from_id
category_from-to_id ContentCategory.movie = refl
category_from-to_id _ = refl

type_name_sound :
    (s : Text)
    → content_type_from_string s ≢ ContentType.unknown
    → to_lower s ≡ type_to_string (content_type_from_string s)
unfolding content_type_from_string type_to_string
type_name_sound s h = ground (
  arith,
  eq_text→eq (to_lower s) (codes "video"),
  eq_text→eq (to_lower s) (codes "audio"),
  eq_text→eq (to_lower s) (codes "books"),
  eq_text→eq (to_lower s) (codes "pictures"),
  eq_text→eq (to_lower s) (codes "software"),
  eq_text→eq (to_lower s) (codes "games"),
  eq_text→eq (to_lower s) (codes "archive"),
  eq_text→eq (to_lower s) (codes "bad"),
)

type_name_complete :
    (s : Text) (t : ContentType) → to_lower s ≡ type_to_string t → content_type_from_string s ≡ t
unfolding content_type_from_string type_to_string
type_name_complete s ContentType.video e = rw (e, content_type_from_string) refl
type_name_complete s _ e = rw (e, content_type_from_string) refl

category_name_sound :
    (s : Text)
    → content_category_from_string s ≢ ContentCategory.unknown
    → to_lower s ≡ category_to_string (content_category_from_string s)
unfolding content_category_from_string category_to_string
category_name_sound s h = ground (
  arith,
  eq_text→eq (to_lower s) (codes "movie"),
  eq_text→eq (to_lower s) (codes "series"),
  eq_text→eq (to_lower s) (codes "documentary"),
  eq_text→eq (to_lower s) (codes "anime"),
  eq_text→eq (to_lower s) (codes "music"),
  eq_text→eq (to_lower s) (codes "ebook"),
  eq_text→eq (to_lower s) (codes "comics"),
  eq_text→eq (to_lower s) (codes "software"),
  eq_text→eq (to_lower s) (codes "game"),
  eq_text→eq (to_lower s) (codes "xxx"),
)

category_name_complete :
    (s : Text) (c : ContentCategory)
    → to_lower s ≡ category_to_string c
    → content_category_from_string s ≡ c
unfolding content_category_from_string category_to_string
category_name_complete s ContentCategory.movie e = rw (e, content_category_from_string) refl
category_name_complete s _ e = rw (e, content_category_from_string) refl

-- For every content type and category but the unknown ones, a text is read as that type or
-- category exactly when its lower case is the name that the type or category is written with.
pub content_name_iff :
    (s : Text) (t : ContentType) (c : ContentCategory)
    → t ≢ ContentType.unknown
    → c ≢ ContentCategory.unknown
    → ((content_type_from_string s ≡ t) ↔ (to_lower s ≡ type_to_string t))
      × ((content_category_from_string s ≡ c) ↔ (to_lower s ≡ category_to_string c))
content_name_iff s t c h k = (
  (λ e. type_name_sound s (λ u. h (sym e ∙ u)) ∙ ap type_to_string e, type_name_complete s t),
  (
    λ e. category_name_sound s (λ u. k (sym e ∙ u)) ∙ ap category_to_string e,
    category_name_complete s c,
  ),
)

type_id_sound :
    (i : ℤ) → content_type_from_id i ≢ ContentType.unknown → type_to_id (content_type_from_id i) ≡ i
unfolding content_type_from_id
type_id_sound i h = ground arith

category_id_sound :
    (i : ℤ)
    → content_category_from_id i ≢ ContentCategory.unknown
    → category_to_id (content_category_from_id i) ≡ i
unfolding content_category_from_id
category_id_sound i h = ground arith

-- An id is read as a known type or category exactly when it is that one's id, so that no two ids
-- are read as one type or category.
pub content_id_iff :
    (i : ℤ) (t : ContentType) (c : ContentCategory)
    → t ≢ ContentType.unknown
    → c ≢ ContentCategory.unknown
    → ((content_type_from_id i ≡ t) ↔ (i ≡ type_to_id t))
      × ((content_category_from_id i ≡ c) ↔ (i ≡ category_to_id c))
content_id_iff i t c h k = (
  (
    λ e. sym (type_id_sound i (λ u. h (sym e ∙ u))) ∙ ap type_to_id e,
    λ e. ap content_type_from_id e ∙ type_from-to_id t,
  ),
  (
    λ e. sym (category_id_sound i (λ u. k (sym e ∙ u))) ∙ ap category_to_id e,
    λ e. ap content_category_from_id e ∙ category_from-to_id c,
  ),
)
