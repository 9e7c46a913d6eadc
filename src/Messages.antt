-- ===== src/Messages.antt =====
-- The message channel of src/MessageChannel.c and include/MessageChannel.h. A listener is the address
-- of a function; what the functions answer, and the vector of vec.h, are parameters. A listener changes
-- neither the message nor the list of listeners: the loop of `AnnounceMessage` reads the vector anew in
-- each round, and a listener that adds or removes one while it runs is left out.
mod Tests
use libjustasic.Base.{
  ℕ, ◌+◌, ◌≡◌, ◌≢◌, refl, Bool, true, false, not, ◌||◌, List, [], ◌∷◌, ◌++◌, if◌then◌else◌, All,
  All-append_right, arith, Bool-cases, inl, inr, ap, ◌∙◌,
}
use libjustasic.Base.Text.{Bytes, codes}

-- `PluginMessage_t`; the data is a pointer.
pub record Message : Type 0 where
  pub channel_name : Bytes
  pub message_name : Bytes
  pub length : ℕ
  pub alloc_size : ℕ
  pub data_ : ℕ

pub create_message : Bytes → Bytes → ℕ → ℕ → Message
create_message channel name datalen content = record {
  channel_name = channel;
  message_name = name;
  length = datalen;
  alloc_size = datalen;
  data_ = content;
}

module _ (call : ℕ → Message → Bool) where
  -- The loop of `AnnounceMessage`, with the calls that it makes, for listeners that leave the message
  -- and the vector alone.
  pub announce_loop : Message → List ℕ → Bool → Bool × List ℕ
  announce_loop msg [] stop = (stop, [])
  announce_loop msg (c ∷ callbacks) stop =
      let (stopped, called) =
        announce_loop msg callbacks (if not (call c msg) then true else stop) in
      (stopped, c ∷ called)

  pub announce_message : List ℕ → Message → Bool × List ℕ
  unfolding announce_loop
  announce_message callbacks msg = announce_loop msg callbacks false

  module _ (vec_push vec_remove : List ℕ → ℕ → List ℕ) where
    pub add_message_listener : List ℕ → ℕ → List ℕ
    add_message_listener callbacks caller =
        if (announce_message callbacks
          (create_message (codes "CORE") (codes "NewReceiver") 8 caller)).0
        then callbacks
        else vec_push callbacks caller

    pub remove_message_listener : List ℕ → ℕ → List ℕ
    remove_message_listener callbacks caller =
        if (announce_message callbacks
          (create_message (codes "CORE") (codes "DeleteReceiver") 8 caller)).0
        then callbacks
        else vec_remove callbacks caller

  -- Some listener answers false.
  unfoldable pub objects : Message → List ℕ → Bool
  objects msg [] = false
  objects msg (c ∷ callbacks) = not (call c msg) || objects msg callbacks

  announce_loop_lem :
      (msg : Message) (callbacks : List ℕ) (stop : Bool)
      → announce_loop msg callbacks stop ≡ (stop || objects msg callbacks, callbacks)
  unfolding announce_loop objects
  announce_loop_lem msg [] false = refl
  announce_loop_lem msg [] true = refl
  announce_loop_lem msg (c ∷ callbacks) stop =
      ground (arith, announce_loop_lem msg callbacks true, announce_loop_lem msg callbacks stop)

  objects_at :
      (before after : List ℕ) (c : ℕ) (msg : Message)
      → call c msg ≡ false
      → objects msg (before ++ c ∷ after) ≡ true
  unfolding objects
  objects_at [] after c msg h = rw h refl
  objects_at (b ∷ before) after c msg h = ground (arith, objects_at before after c msg h)

  objects_none :
      (callbacks : List ℕ) (msg : Message)
      → ((c : ℕ) → call c msg ≡ true)
      → objects msg callbacks ≡ false
  unfolding objects
  objects_none [] msg h = refl
  objects_none (c ∷ callbacks) msg h = rw (h c, objects_none callbacks msg h) refl

  -- For listeners that change neither the message nor the list of listeners: a message reaches every
  -- listener once and in their order, also after one of them objects, and the answer is true exactly
  -- when one does.
  pub announce_message_lem :
      (callbacks : List ℕ) (msg : Message)
      → announce_message callbacks msg ≡ (objects msg callbacks, callbacks)
  unfolding announce_message
  announce_message_lem callbacks msg = announce_loop_lem msg callbacks false

  module _ (vec_push vec_remove : List ℕ → ℕ → List ℕ) where
    -- A listener that answers false to everything can neither be removed nor joined by another, and
    -- nobody else can be removed.
    pub listeners_frozen :
        (before after : List ℕ) (c caller : ℕ)
        → ((msg : Message) → call c msg ≡ false)
        → (add_message_listener vec_push vec_remove (before ++ c ∷ after) caller
            ≡ before ++ c ∷ after)
          × (remove_message_listener vec_push vec_remove (before ++ c ∷ after) caller
              ≡ before ++ c ∷ after)
    unfolding add_message_listener remove_message_listener
    listeners_frozen before after c caller h =
        let l = before ++ c ∷ after in
        let add = create_message (codes "CORE") (codes "NewReceiver") 8 caller in
        let delete = create_message (codes "CORE") (codes "DeleteReceiver") 8 caller in
        (
          rw (announce_message_lem l add, objects_at before after c add (h add)) refl,
          rw (announce_message_lem l delete, objects_at before after c delete (h delete)) refl,
        )

    -- When nobody objects, a listener that is added comes last, and removing it undoes that.
    pub remove-add :
        (callbacks : List ℕ) (caller : ℕ)
        → ((v : List ℕ) (x : ℕ) → vec_push v x ≡ v ++ x ∷ [])
        → ((v : List ℕ) (x : ℕ) → All (λ y. y ≢ x) v → vec_remove (v ++ x ∷ []) x ≡ v)
        → ((c : ℕ) (msg : Message) → call c msg ≡ true)
        → All (λ y. y ≢ caller) callbacks
        → (add_message_listener vec_push vec_remove callbacks caller ≡ callbacks ++ caller ∷ [])
          × (remove_message_listener vec_push vec_remove
                (add_message_listener vec_push vec_remove callbacks caller)
                caller
              ≡ callbacks)
    unfolding add_message_listener remove_message_listener
    remove-add callbacks caller push remove agree new =
        let add = create_message (codes "CORE") (codes "NewReceiver") 8 caller in
        let delete = create_message (codes "CORE") (codes "DeleteReceiver") 8 caller in
        let joined : add_message_listener vec_push vec_remove callbacks caller
            ≡ callbacks ++ caller ∷ [] =
          rw (announce_message_lem callbacks add, objects_none callbacks add (λ c. agree c add))
            (push callbacks caller) in
        let left : remove_message_listener vec_push vec_remove (callbacks ++ caller ∷ []) caller
            ≡ callbacks =
          rw
            (
              announce_message_lem (callbacks ++ caller ∷ []) delete,
              objects_none (callbacks ++ caller ∷ []) delete (λ c. agree c delete),
            )
            (remove callbacks caller new) in
        (joined, ap (λ l. remove_message_listener vec_push vec_remove l caller) joined ∙ left)
