-- ===== src/Reminders/Waiting.antt =====
-- internal/reminders/run.go: the runs that wait for a reply, and the replies that are routed to them.
-- A channel is a number, and holds one reply at most.
use zcoms_agent.Prelude.{
  ℕ, Bool, true, false, List, [], ◌∷◌, ◌++◌, ◌==◌, Option, none, some, ◌≡◌, refl, ap, ◌∙◌, arith,
  if◌then◌else◌, ==_iff,
}
use zcoms_agent.Prelude.Text.{Text, codes, text_eq, text_eq_refl}

pub record Waits : Type 0 where
  pub waiting : List (Text × ℕ)
  pub queued : ℕ → Option Text

-- recipientKey
unfoldable pub recipient_key : Text → Text → Text
recipient_key transport addr =
    (if text_eq transport (codes "") then codes "telegram" else transport) ++ codes "|" ++ addr

unfoldable pub channel : Text → List (Text × ℕ) → Option ℕ
channel key [] = none
channel key ((k, ch) ∷ waiting) =
    let rest : Option ℕ = channel key waiting in if text_eq k key then some ch else rest

unfoldable pub without : Text → List (Text × ℕ) → List (Text × ℕ)
without key [] = []
without key ((k, ch) ∷ waiting) =
    let rest = without key waiting in if text_eq k key then rest else (k, ch) ∷ rest

abbrev queue : ℕ → Option Text → (ℕ → Option Text) → ℕ → Option Text
queue ch text queued i = if i == ch then text else queued i

-- waitReply up to the select, with a fresh channel: an entry of the key is replaced.
unfoldable pub begin_wait : Text → ℕ → Waits → Waits
unfolding without
begin_wait key ch w = record {
  waiting = (key, ch) ∷ without key w.waiting;
  queued = queue ch none w.queued;
}

-- waitReply after the select: the reply, and the key is given up.
unfoldable pub end_wait : Text → ℕ → Waits → Option Text × Waits
unfolding without
end_wait key ch w = (w.queued ch, record w { waiting = without key w.waiting })

abbrev is_some : Option ℕ → Bool
is_some none = false
is_some (some ch) = true

-- ownsKey
unfoldable pub owns_key : Text → Waits → Bool
unfolding channel
owns_key key w = is_some (channel key w.waiting)

abbrev queued_or_dropped : Text → ℕ → Option Text → Waits → Waits
queued_or_dropped text ch none w = record w { queued = queue ch (some text) w.queued }
queued_or_dropped text ch (some first) w = w

abbrev feed_to : Text → Option ℕ → Waits → Bool × Waits
feed_to text none w = (false, w)
feed_to text (some ch) w = (true, queued_or_dropped text ch (w.queued ch) w)

-- feed: is the reply consumed?
unfoldable pub feed : Text → Text → Waits → Bool × Waits
unfolding channel
feed key text w = feed_to text (channel key w.waiting) w

channel-without : (key : Text) (l : List (Text × ℕ)) → channel key (without key l) ≡ none
unfolding channel without
channel-without key [] = refl
channel-without key ((k, ch) ∷ l) = ground (arith, channel-without key l)

queue_same : (ch : ℕ) (text : Option Text) (q : ℕ → Option Text) → queue ch text q ch ≡ text
queue_same ch text q = rw ((==_iff ch ch).1 refl) refl

channel_first : (key : Text) (ch : ℕ) (l : List (Text × ℕ)) → channel key ((key, ch) ∷ l) ≡ some ch
unfolding channel
channel_first key ch l = rw (text_eq_refl key) refl

feed_empty :
    (key text : Text) (ch : ℕ) (w : Waits)
    → channel key w.waiting ≡ some ch
    → w.queued ch ≡ none
    → feed key text w ≡ (true, record w { queued = queue ch (some text) w.queued })
unfolding feed
feed_empty key text ch w at_ch empty =
    ap (λ (o : Option ℕ). feed_to text o w) at_ch
    ∙ ap (λ (o : Option Text). (true, queued_or_dropped text ch o w)) empty

feed_full :
    (key text first : Text) (ch : ℕ) (w : Waits)
    → channel key w.waiting ≡ some ch
    → w.queued ch ≡ some first
    → feed key text w ≡ (true, w)
unfolding feed
feed_full key text first ch w at_ch full =
    ap (λ (o : Option ℕ). feed_to text o w) at_ch
    ∙ ap (λ (o : Option Text). (true, queued_or_dropped text ch o w)) full

-- While a run waits, the first reply of its recipient is the one that it gets; a further one is
-- consumed and dropped.
pub feed-first :
    (key first second : Text) (ch : ℕ) (w : Waits)
    → (feed key first (begin_wait key ch w)).0 ≡ true
      × (feed key second (feed key first (begin_wait key ch w)).1).0 ≡ true
      × (end_wait key ch (feed key second (feed key first (begin_wait key ch w)).1).1).0
        ≡ some first
unfolding begin_wait end_wait
feed-first key first second ch w =
    let b : Waits = begin_wait key ch w in
    let u : Waits = record b { queued = queue ch (some first) b.queued } in
    let at_ch : channel key b.waiting ≡ some ch = channel_first key ch (without key w.waiting) in
    let got : feed key first b ≡ (true, u) =
      feed_empty key first ch b at_ch (queue_same ch none w.queued) in
    let kept : feed key second u ≡ (true, u) =
      feed_full key second first ch u at_ch (queue_same ch (some first) b.queued) in
    let both : feed key second (feed key first b).1 ≡ (true, u) =
      ap (λ (r : Bool × Waits). feed key second r.1) got ∙ kept in
    (
      ap (λ (r : Bool × Waits). r.0) got,
      ap (λ (r : Bool × Waits). r.0) both,
      ap (λ (r : Bool × Waits). (end_wait key ch r.1).0) both ∙ queue_same ch (some first) b.queued,
    )

-- If two runs wait for one recipient, the end of the first wait makes the recipient's replies pass
-- by the second, which still waits: no run consumes them.
pub feed-second_wait :
    (key text : Text) (one two : ℕ) (w : Waits)
    → owns_key key (end_wait key one (begin_wait key two (begin_wait key one w))).1 ≡ false
      × feed key text (end_wait key one (begin_wait key two (begin_wait key one w))).1
        ≡ (false, (end_wait key one (begin_wait key two (begin_wait key one w))).1)
unfolding owns_key feed end_wait
feed-second_wait key text one two w =
    let b : Waits = begin_wait key two (begin_wait key one w) in
    let v : Waits = (end_wait key one b).1 in
    let gone : channel key v.waiting ≡ none = channel-without key b.waiting in
    (ap is_some gone, ap (λ (o : Option ℕ). feed_to text o v) gone)
