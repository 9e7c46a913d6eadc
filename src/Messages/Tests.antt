-- ===== src/Messages/Tests.antt =====
-- The theorems of the message channel at concrete listeners.
use libjustasic.Base.{
  ℕ, ◌≡◌, ◌≢◌, refl, Bool, true, not, List, [], ◌∷◌, ◌++◌, if◌then◌else◌, ◌==◌, All, ap, ne→==,
  ==_refl,
}
use libjustasic.Messages.{Message, create_message, announce_message, announce_message_lem, objects}

-- The third listener objects to everything.
abbrev third_objects : ℕ → Message → Bool
third_objects c msg = not (c == 3)

abbrev hello : Message
hello = create_message (b'h' ∷ []) (b'i' ∷ []) 0 0

announce_message_lem_example :
    announce_message third_objects (1 ∷ 3 ∷ 2 ∷ []) hello
    ≡ (objects third_objects hello (1 ∷ 3 ∷ 2 ∷ []), 1 ∷ 3 ∷ 2 ∷ [])
announce_message_lem_example = announce_message_lem third_objects (1 ∷ 3 ∷ 2 ∷ []) hello

abbrev push : List ℕ → ℕ → List ℕ
push v x = v ++ x ∷ []

-- The first occurrence goes.
abbrev remove : List ℕ → ℕ → List ℕ
remove [] x = []
remove (y ∷ v) x = let rest = remove v x in if y == x then v else y ∷ rest

abbrev agree : ℕ → Message → Bool
agree c msg = true

remove_last : (v : List ℕ) (x : ℕ) → All (λ y. y ≢ x) v → remove (v ++ x ∷ []) x ≡ v
remove_last [] x h = rw (==_refl x) refl
remove_last (y ∷ v) x h = rw (ne→== y x h.0) (ap (◌∷◌ y) (remove_last v x h.1))
