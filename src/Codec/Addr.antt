-- ===== src/Codec/Addr.antt =====
-- Socket addresses, which travel as text. `SocketAddr`, its `to_string` and its `parse` are the
-- standard library's. They enter as an interface: parsing the text of an address gives the address
-- back, save where the text leaves something out, such as the flow label of an IPv6 address.
use xchannel_net.Base.{◌≡◌, Option, some, none, Bytes}
use xchannel_net.Codec.{W, Reads, ◌>>=◌, pure, fail, invalid_addr}
use xchannel_net.Codec.Put
use xchannel_net.Codec.Get
use xchannel_net.Codec.Laws.{IsText, Carries, Carries-str, Carries-then}

pub record AddrText : Type 1 where
  pub SocketAddr : Type 0
  pub to_string : SocketAddr → Bytes
  pub parse : Bytes → Option SocketAddr
  pub IsPlain : SocketAddr → Type 0
  pub to_string-IsText : (a : SocketAddr) → IsText (to_string a)
  pub parse-to_string : (a : SocketAddr) → IsPlain a → parse (to_string a) ≡ some a

module _ (t : AddrText) where
  open t use {SocketAddr, to_string, parse, IsPlain, to_string-IsText, parse-to_string}

  unfoldable pub put_addr : SocketAddr → W
  put_addr a = Put.str (to_string a)

  unfoldable pub or_invalid : Option SocketAddr → Reads SocketAddr
  or_invalid none = fail invalid_addr
  or_invalid (some a) = pure a

  unfoldable pub get_addr : Reads SocketAddr
  unfolding or_invalid
  get_addr = do s ← Get.str; or_invalid (parse s)

  pub Carries-addr : (a : SocketAddr) → IsPlain a → Carries (put_addr a) get_addr a
  unfolding put_addr get_addr or_invalid pure
  Carries-addr a h =
      Carries-then _ (Carries-str (to_string a) (to_string-IsText a))
        (λ r. rw (parse-to_string a h))
