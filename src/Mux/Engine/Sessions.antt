-- ===== src/Mux/Engine/Sessions.antt =====
-- Whole sessions of a mux: any sequence of its operations, whatever each of them answers.
use xchannel_net.Base.{ℕ, ◌≡◌, refl, ap, Bool, true, false, List, [], ◌∷◌, Bytes}
use xchannel_net.Identity.{ChannelName}
use xchannel_net.Replication.{Io, done, Logs}
use xchannel_net.Mux.Engine.{Topics, Mux}
use xchannel_net.Mux.Engine.Merge.{poll}
use xchannel_net.Mux.Engine.Merge.Bounds.{poll-finished}
use xchannel_net.Mux.Engine.Members.Retire.{
  finish-finished, add_member-finished, remove_member-no_slots, finish_lem,
}
use xchannel_net.Mux.Engine.Members.{add_member, remove_member, finish}

pub data Operation : Type 0 where
  polled finished : Operation
  added : ChannelName → ℕ → Bytes → Operation
  removed : ChannelName → ℕ → Operation

module _ (l : Logs) (x : Topics) where
  pub perform : Operation → Mux l x → Mux l x
  perform polled s = (poll l x s).1
  perform Operation.finished s = (finish l x s).1
  perform (added name epoch path) s = (add_member l x name epoch path s).1
  perform (removed name epoch) s = (remove_member l x name epoch s).1

  pub perform_all : List Operation → Mux l x → Mux l x
  perform_all [] s = s
  perform_all (o ∷ os) s = perform_all os (perform o s)

  -- After the terminal marker nothing happens any more.
  unfoldable pub IsRetired : Mux l x → Type 0
  IsRetired s = (s.finished ≡ true) × (s.slots ≡ [])

  perform-retired : (o : Operation) (s : Mux l x) → IsRetired s → perform o s ≡ s
  unfolding IsRetired perform
  perform-retired polled s (f, e) = ap (λ (r : Io ℕ × Mux l x). r.1) (poll-finished l x s f)
  perform-retired Operation.finished s (f, e) =
      ap (λ (r : Io (Unit {0}) × Mux l x). r.1) (finish-finished l x s f)
  perform-retired (added name epoch path) s (f, e) =
      ap (λ (r : Io (Unit {0}) × Mux l x). r.1) (add_member-finished l x name epoch path s f)
  perform-retired (removed name epoch) s (f, e) =
      ap (λ (r : Io Bool × Mux l x). r.1) (remove_member-no_slots l x name epoch s e)

  -- Once the topic is retired, no operation changes the mux.
  perform_all-retired : (os : List Operation) (s : Mux l x) → IsRetired s → perform_all os s ≡ s
  unfolding perform_all
  perform_all-retired [] s h = refl
  perform_all-retired (o ∷ os) s h = rw (perform-retired o s h) (perform_all-retired os s h)

  -- A retirement of a topic that was not retired, when it succeeds, leaves the mux finished with
  -- no member, and no later operation changes anything of it.
  pub retired_lem :
      (s s' : Mux l x) (os : List Operation)
      → s.finished ≡ false
      → finish l x s ≡ (done tt, s')
      → (s'.finished ≡ true) × (s'.slots ≡ []) × (perform_all os s' ≡ s')
  unfolding IsRetired
  retired_lem s s' os f e =
      let (finished', empty) = finish_lem l x s s' f e in
      (finished', empty, perform_all-retired os s' (finished', empty))
