-- ===== src/Transport/Link.antt =====
-- A sender and a receiver of frames, joined by a byte stream that may cut them anywhere.
use mathlib.Core.List.{append-nil}
use xchannel_net.Base.{◌+◌, ◌≤◌, ◌≡◌, sym, ap, ◌∙◌, List, ◌++◌, Bytes, All, some, length, arith}
use xchannel_net.Transport.{max_frame_len, WriteAnswer, ReadAnswer, FramedConn, new, flush, unsent}
use xchannel_net.Transport.Receive.{data_of, IsLive}
use xchannel_net.Transport.Collect.{collect, collect_whole}
use xchannel_net.Transport.Send.{OutIsValid, Serves, Takes, flush_lem, flush_drains}
use xchannel_net.Transport.Queue.{send_all, send_all_lem}

-- A sender that queues frames within the limit on a socket that may take little at a time or make
-- it wait, but does not fail, and then flushes until all is out, sends the frames to a reader that
-- gets these bytes cut in any way and with waits between: with one poll for each frame and each
-- answer the reader collects exactly these frames, in order.
pub link_lem :
    (fs : List Bytes) (ws ds : List WriteAnswer) (rs : List ReadAnswer)
    → All (λ f. length f ≤ max_frame_len) fs
    → All Serves ws
    → All Takes ds
    → length (unsent (send_all fs new ws).2) ≤ length ds
    → All IsLive rs
    → data_of rs ≡ (send_all fs new ws).0 ++ (flush ds (send_all fs new ws).2).0
    → (c : FramedConn) × (later : List ReadAnswer) × (collect (length fs + length rs) new rs
        ≡ some (fs, c, later))
unfolding OutIsValid unsent new
link_lem fs ws ds rs le serves takes enough live carried =
    let s = send_all_lem fs new ws (omega arith) le serves in
    let k = flush_lem ds (send_all fs new ws).2 s.1 in
    let all_out = k.drained (flush_drains ds (send_all fs new ws).2 s.1 takes enough) in
    let flushed =
      sym (append-nil (flush ds (send_all fs new ws).2).0)
      ∙ ap (◌++◌ (flush ds (send_all fs new ws).2).0) (sym all_out)
      ∙ k.conserved in
    collect_whole fs rs le live (carried ∙ ap (◌++◌ (send_all fs new ws).0) flushed ∙ s.0)
