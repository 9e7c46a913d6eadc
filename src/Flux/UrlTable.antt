-- ===== src/Flux/UrlTable.antt =====
-- The table `url_escape_table` of include/Flux.h: the escape of each byte, or `none` for the null
-- pointer.
use libjustasic.Base.{List, [], ◌∷◌, ◌++◌, Option, none, some}
use libjustasic.Base.Text.{Bytes, codes}

abbrev low_half : List (Option Bytes)
low_half =
    some (codes "%00")
    ∷ some (codes "%01")
    ∷ some (codes "%02")
    ∷ some (codes "%03")
    ∷ some (codes "%04")
    ∷ some (codes "%05")
    ∷ some (codes "%06")
    ∷ some (codes "%07")
    ∷ some (codes "%08")
    ∷ some (codes "%09")
    ∷ some (codes "%0a")
    ∷ some (codes "%0b")
    ∷ some (codes "%0c")
    ∷ some (codes "%0d")
    ∷ some (codes "%0e")
    ∷ some (codes "%0f")
    ∷ some (codes "%10")
    ∷ some (codes "%11")
    ∷ some (codes "%12")
    ∷ some (codes "%13")
    ∷ some (codes "%14")
    ∷ some (codes "%15")
    ∷ some (codes "%16")
    ∷ some (codes "%17")
    ∷ some (codes "%18")
    ∷ some (codes "%19")
    ∷ some (codes "%1a")
    ∷ some (codes "%1b")
    ∷ some (codes "%1c")
    ∷ some (codes "%1d")
    ∷ some (codes "%1e")
    ∷ some (codes "%1f")
    ∷ some (codes "%20")
    ∷ some (codes "%21")
    ∷ some (codes "%22")
    ∷ some (codes "%23")
    ∷ some (codes "%24")
    ∷ some (codes "%25")
    ∷ some (codes "%26")
    ∷ some (codes "%27")
    ∷ none
    ∷ none
    ∷ some (codes "%2a")
    ∷ some (codes "%2b")
    ∷ some (codes "%2c")
    ∷ some (codes "%2d")
    ∷ none
    ∷ some (codes "%2f")
    ∷ none
    ∷ none
    ∷ none
    ∷ none
    ∷ none
    ∷ none
    ∷ none
    ∷ none
    ∷ none
    ∷ none
    ∷ some (codes "%3a")
    ∷ some (codes "%3b")
    ∷ some (codes "%3c")
    ∷ some (codes "%3d")
    ∷ some (codes "%3e")
    ∷ some (codes "%3f")
    ∷ some (codes "%40")
    ∷ none
    ∷ none
    ∷ none
    ∷ none
    ∷ none
    ∷ none
    ∷ none
    ∷ none
    ∷ none
    ∷ none
    ∷ none
    ∷ none
    ∷ none
    ∷ none
    ∷ none
    ∷ none
    ∷ none
    ∷ none
    ∷ none
    ∷ none
    ∷ none
    ∷ none
    ∷ none
    ∷ none
    ∷ none
    ∷ none
    ∷ some (codes "%5b")
    ∷ some (codes "%5c")
    ∷ some (codes "%5d")
    ∷ some (codes "%5e")
    ∷ none
    ∷ some (codes "%60")
    ∷ none
    ∷ none
    ∷ none
    ∷ none
    ∷ none
    ∷ none
    ∷ none
    ∷ none
    ∷ none
    ∷ none
    ∷ none
    ∷ none
    ∷ none
    ∷ none
    ∷ none
    ∷ none
    ∷ none
    ∷ none
    ∷ none
    ∷ none
    ∷ none
    ∷ none
    ∷ none
    ∷ none
    ∷ none
    ∷ none
    ∷ some (codes "%7b")
    ∷ some (codes "%7c")
    ∷ some (codes "%7d")
    ∷ none
    ∷ some (codes "%7f")
    ∷ []

abbrev high_half : List (Option Bytes)
high_half =
    some (codes "%80")
    ∷ some (codes "%81")
    ∷ some (codes "%82")
    ∷ some (codes "%83")
    ∷ some (codes "%84")
    ∷ some (codes "%85")
    ∷ some (codes "%86")
    ∷ some (codes "%87")
    ∷ some (codes "%88")
    ∷ some (codes "%89")
    ∷ some (codes "%8a")
    ∷ some (codes "%8b")
    ∷ some (codes "%8c")
    ∷ some (codes "%8d")
    ∷ some (codes "%8e")
    ∷ some (codes "%8f")
    ∷ some (codes "%90")
    ∷ some (codes "%91")
    ∷ some (codes "%92")
    ∷ some (codes "%93")
    ∷ some (codes "%94")
    ∷ some (codes "%95")
    ∷ some (codes "%96")
    ∷ some (codes "%97")
    ∷ some (codes "%98")
    ∷ some (codes "%99")
    ∷ some (codes "%9a")
    ∷ some (codes "%9b")
    ∷ some (codes "%9c")
    ∷ some (codes "%9d")
    ∷ some (codes "%9e")
    ∷ some (codes "%9f")
    ∷ some (codes "%a0")
    ∷ some (codes "%a1")
    ∷ some (codes "%a2")
    ∷ some (codes "%a3")
    ∷ some (codes "%a4")
    ∷ some (codes "%a5")
    ∷ some (codes "%a6")
    ∷ some (codes "%a7")
    ∷ some (codes "%a8")
    ∷ some (codes "%a9")
    ∷ some (codes "%aa")
    ∷ some (codes "%ab")
    ∷ some (codes "%ac")
    ∷ some (codes "%ad")
    ∷ some (codes "%ae")
    ∷ some (codes "%af")
    ∷ some (codes "%b0")
    ∷ some (codes "%b1")
    ∷ some (codes "%b2")
    ∷ some (codes "%b3")
    ∷ some (codes "%b4")
    ∷ some (codes "%b5")
    ∷ some (codes "%b6")
    ∷ some (codes "%b7")
    ∷ some (codes "%b8")
    ∷ some (codes "%b9")
    ∷ some (codes "%ba")
    ∷ some (codes "%bb")
    ∷ some (codes "%bc")
    ∷ some (codes "%bd")
    ∷ some (codes "%be")
    ∷ some (codes "%bf")
    ∷ some (codes "%c0")
    ∷ some (codes "%c1")
    ∷ some (codes "%c2")
    ∷ some (codes "%c3")
    ∷ some (codes "%c4")
    ∷ some (codes "%c5")
    ∷ some (codes "%c6")
    ∷ some (codes "%c7")
    ∷ some (codes "%c8")
    ∷ some (codes "%c9")
    ∷ some (codes "%ca")
    ∷ some (codes "%cb")
    ∷ some (codes "%cc")
    ∷ some (codes "%cd")
    ∷ some (codes "%ce")
    ∷ some (codes "%cf")
    ∷ some (codes "%d0")
    ∷ some (codes "%d1")
    ∷ some (codes "%d2")
    ∷ some (codes "%d3")
    ∷ some (codes "%d4")
    ∷ some (codes "%d5")
    ∷ some (codes "%d6")
    ∷ some (codes "%d7")
    ∷ some (codes "%d8")
    ∷ some (codes "%d9")
    ∷ some (codes "%da")
    ∷ some (codes "%db")
    ∷ some (codes "%dc")
    ∷ some (codes "%dd")
    ∷ some (codes "%de")
    ∷ some (codes "%df")
    ∷ some (codes "%e0")
    ∷ some (codes "%e1")
    ∷ some (codes "%e2")
    ∷ some (codes "%e3")
    ∷ some (codes "%e4")
    ∷ some (codes "%e5")
    ∷ some (codes "%e6")
    ∷ some (codes "%e7")
    ∷ some (codes "%e8")
    ∷ some (codes "%e9")
    ∷ some (codes "%ea")
    ∷ some (codes "%eb")
    ∷ some (codes "%ec")
    ∷ some (codes "%ed")
    ∷ some (codes "%ee")
    ∷ some (codes "%ef")
    ∷ some (codes "%f0")
    ∷ some (codes "%f1")
    ∷ some (codes "%f2")
    ∷ some (codes "%f3")
    ∷ some (codes "%f4")
    ∷ some (codes "%f5")
    ∷ some (codes "%f6")
    ∷ some (codes "%f7")
    ∷ some (codes "%f8")
    ∷ some (codes "%f9")
    ∷ some (codes "%fa")
    ∷ some (codes "%fb")
    ∷ some (codes "%fc")
    ∷ some (codes "%fd")
    ∷ some (codes "%fe")
    ∷ some (codes "%ff")
    ∷ []

abbrev pub url_escape_table : List (Option Bytes)
url_escape_table = low_half ++ high_half
