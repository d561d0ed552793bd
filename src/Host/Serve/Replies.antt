-- ===== src/Host/Serve/Replies.antt =====
-- crates/rv64-host/src/serve.rs: the replies to a list of requests.
use dc34_baonix.Base.{ℕ, ◌≡◌, ◌∙◌, ap, map, to_le, Option, none, some, List, [], ◌∷◌, ◌++◌}
use dc34_baonix.Proto.{
  Frame, read_req, read_resp, write_req, write_ack, error, con_out, con_in, type_byte, encode,
  encode_frame_body, body_of, sync,
}
use dc34_baonix.Proto.Crc.{crc32}
use dc34_baonix.Proto.Mux.Sorting.{wire_of}
use mathlib.Core.List.{append_assoc}
use dc34_baonix.Host.Serve.{Server, read_reply, write_reply}

abbrev pub page_of : Frame → ℕ
page_of (read_req page) = page
page_of (write_req page _) = page
page_of (read_resp page _) = page
page_of (write_ack page) = page
page_of (error _ page) = page
page_of (con_out _) = 0
page_of (con_in _) = 0

-- What `Served` has of a request.
abbrev pub named : Frame → ℕ × ℕ
named f = (type_byte f, page_of f)

-- An answer to a request: a page or an error for its page.
pub data IsReply : Frame → Frame → Type 0 where
  page_read : (page : ℕ) (d : List ℕ) → IsReply (read_req page) (read_resp page d)
  not_read : (page : ℕ) → IsReply (read_req page) (error 1 page)
  page_written : (page : ℕ) (d : List ℕ) → IsReply (write_req page d) (write_ack page)
  not_written : (page : ℕ) (d : List ℕ) → IsReply (write_req page d) (error 2 page)

-- An answer to each, in the same order.
pub data Replies : List Frame → List Frame → Type 0 where
  nothing : Replies [] []
  first :
      (f r : Frame) (fs rs : List Frame) → IsReply f r → Replies fs rs → Replies (f ∷ fs) (r ∷ rs)

pub read_reply-IsReply :
    (page : ℕ) (o : Option (List ℕ)) → IsReply (read_req page) (read_reply page o)
read_reply-IsReply page (some d) = page_read page d
read_reply-IsReply page none = not_read page

pub write_reply-IsReply :
    (page : ℕ) (d : List ℕ) (o : Option (Unit {0}))
    → IsReply (write_req page d) (write_reply page o)
write_reply-IsReply page d (some _) = page_written page d
write_reply-IsReply page d none = not_written page d

encode_frame_body-behind :
    (ty : ℕ) (p out : List ℕ) → encode_frame_body ty p out ≡ out ++ encode_frame_body ty p []
unfolding encode_frame_body
encode_frame_body-behind ty p out =
    let crc = to_le 4 (crc32 (body_of ty p)) in
    ap (λ l. l ++ crc) (append_assoc out (to_le 2 sync) (body_of ty p))
    ∙ append_assoc out (to_le 2 sync ++ body_of ty p) crc

-- It is encoded behind what is there.
encode-IsReply : {f r : Frame} (out : List ℕ) → IsReply f r → encode r out ≡ out ++ encode r []
unfolding encode
encode-IsReply out (page_read page d) = encode_frame_body-behind 0x02 (to_le 4 page ++ d) out
encode-IsReply out (not_read page) = encode_frame_body-behind 0x07 (to_le 2 1 ++ to_le 4 page) out
encode-IsReply out (page_written page d) = encode_frame_body-behind 0x04 (to_le 4 page) out
encode-IsReply out (not_written page d) =
    encode_frame_body-behind 0x07 (to_le 2 2 ++ to_le 4 page) out

-- The second server has answered these requests, which the first has not.
pub record HasAnswered {F : Type 0} (fs : List Frame) (s s' : Server F) : Type 0 where
  pub replies : List Frame
  pub each : Replies fs replies
  pub written : s'.out ≡ s.out ++ wire_of replies
  pub recorded : s'.answered ≡ s.answered ++ map named fs
  pub mux_same : s'.mux ≡ s.mux

-- It has answered this one.
pub record HasAnsweredOne {F : Type 0} (f : Frame) (s s' : Server F) : Type 0 where
  pub reply : Frame
  pub fits : IsReply f reply
  pub behind : s'.out ≡ encode reply s.out
  pub noted : s'.answered ≡ s.answered ++ named f ∷ []
  pub same : s'.mux ≡ s.mux

pub HasAnswered-more :
    {F : Type 0} (f : Frame) (fs : List Frame) (s s1 s2 : Server F)
    → HasAnsweredOne f s s1
    → HasAnswered fs s1 s2
    → HasAnswered (f ∷ fs) s s2
HasAnswered-more f fs s s1 s2 x y = record {
  replies = x.reply ∷ y.replies;
  each = first f x.reply fs y.replies x.fits y.each;
  written =
      y.written
      ∙ ap (λ b. b ++ wire_of y.replies) (x.behind ∙ encode-IsReply s.out x.fits)
      ∙ append_assoc s.out (encode x.reply []) (wire_of y.replies);
  recorded =
      y.recorded
      ∙ ap (λ l. l ++ map named fs) x.noted
      ∙ append_assoc s.answered (named f ∷ []) (map named fs);
  mux_same = y.mux_same ∙ x.same;
}
