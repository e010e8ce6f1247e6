-- ===== src/Domain/Content.antt =====
-- native/domain/content.h and content.cpp: the content types and categories, their names and ids.
pub mod Names
use rats_search_tui.Base.{
  ℕ, ℤ, pos, negsuc, Bool, Text, [], codes, eq_text, eq_ℤ, to_lower, if◌then◌else◌,
}

pub data ContentType : Type 0 where
  unknown video audio books pictures software games archive bad : ContentType

pub data ContentCategory : Type 0 where
  unknown movie series documentary anime music ebook comics software game xxx : ContentCategory

-- toString(ContentType)
unfoldable pub type_to_string : ContentType → Text
type_to_string ContentType.unknown = []
type_to_string video = codes "video"
type_to_string audio = codes "audio"
type_to_string books = codes "books"
type_to_string pictures = codes "pictures"
type_to_string ContentType.software = codes "software"
type_to_string games = codes "games"
type_to_string archive = codes "archive"
type_to_string bad = codes "bad"

-- toString(ContentCategory)
unfoldable pub category_to_string : ContentCategory → Text
category_to_string ContentCategory.unknown = []
category_to_string movie = codes "movie"
category_to_string series = codes "series"
category_to_string documentary = codes "documentary"
category_to_string anime = codes "anime"
category_to_string music = codes "music"
category_to_string ebook = codes "ebook"
category_to_string comics = codes "comics"
category_to_string ContentCategory.software = codes "software"
category_to_string game = codes "game"
category_to_string xxx = codes "xxx"

unfoldable pub content_type_from_string : Text → ContentType
content_type_from_string s =
    let v = to_lower s in
    if eq_text v (codes "video")
    then video
    else if eq_text v (codes "audio")
    then audio
    else if eq_text v (codes "books")
    then books
    else if eq_text v (codes "pictures")
    then pictures
    else if eq_text v (codes "software")
    then ContentType.software
    else if eq_text v (codes "games")
    then games
    else if eq_text v (codes "archive")
    then archive
    else if eq_text v (codes "bad")
    then bad
    else ContentType.unknown

unfoldable pub content_category_from_string : Text → ContentCategory
content_category_from_string s =
    let v = to_lower s in
    if eq_text v (codes "movie")
    then movie
    else if eq_text v (codes "series")
    then series
    else if eq_text v (codes "documentary")
    then documentary
    else if eq_text v (codes "anime")
    then anime
    else if eq_text v (codes "music")
    then music
    else if eq_text v (codes "ebook")
    then ebook
    else if eq_text v (codes "comics")
    then comics
    else if eq_text v (codes "software")
    then ContentCategory.software
    else if eq_text v (codes "game")
    then game
    else if eq_text v (codes "xxx")
    then xxx
    else ContentCategory.unknown

-- toId, the enumerators' values
abbrev pub type_to_id : ContentType → ℤ
type_to_id ContentType.unknown = pos 0
type_to_id video = pos 1
type_to_id audio = pos 2
type_to_id books = pos 3
type_to_id pictures = pos 4
type_to_id ContentType.software = pos 5
type_to_id games = pos 6
type_to_id archive = pos 7
type_to_id bad = pos 100

abbrev pub category_to_id : ContentCategory → ℤ
category_to_id ContentCategory.unknown = pos 0
category_to_id movie = pos 1
category_to_id series = pos 2
category_to_id documentary = pos 3
category_to_id anime = pos 4
category_to_id music = pos 5
category_to_id ebook = pos 6
category_to_id comics = pos 7
category_to_id ContentCategory.software = pos 8
category_to_id game = pos 9
category_to_id xxx = pos 100

unfoldable pub content_type_from_id : ℤ → ContentType
content_type_from_id id =
    if eq_ℤ id (pos 1)
    then video
    else if eq_ℤ id (pos 2)
    then audio
    else if eq_ℤ id (pos 3)
    then books
    else if eq_ℤ id (pos 4)
    then pictures
    else if eq_ℤ id (pos 5)
    then ContentType.software
    else if eq_ℤ id (pos 6)
    then games
    else if eq_ℤ id (pos 7)
    then archive
    else if eq_ℤ id (pos 100)
    then bad
    else ContentType.unknown

unfoldable pub content_category_from_id : ℤ → ContentCategory
content_category_from_id id =
    if eq_ℤ id (pos 1)
    then movie
    else if eq_ℤ id (pos 2)
    then series
    else if eq_ℤ id (pos 3)
    then documentary
    else if eq_ℤ id (pos 4)
    then anime
    else if eq_ℤ id (pos 5)
    then music
    else if eq_ℤ id (pos 6)
    then ebook
    else if eq_ℤ id (pos 7)
    then comics
    else if eq_ℤ id (pos 8)
    then ContentCategory.software
    else if eq_ℤ id (pos 9)
    then game
    else if eq_ℤ id (pos 100)
    then xxx
    else ContentCategory.unknown

abbrev pub eq_type : ContentType → ContentType → Bool
eq_type a b = eq_ℤ (type_to_id a) (type_to_id b)

abbrev pub eq_category : ContentCategory → ContentCategory → Bool
eq_category a b = eq_ℤ (category_to_id a) (category_to_id b)
