-- ===== src/Users/Requests/Histories.antt =====
-- internal/httpserver/userhandler/users.go: the requests that write, one after another.
use media_hub_oss.Prelude.{Bool, true, false, if◌then◌else◌, Option, none, some, List, [], ◌∷◌}
use media_hub_oss.Prelude.Text.{Text, is_empty}
use media_hub_oss.Prelude.Keyed.{find_by}
use media_hub_oss.Access.Accounts.{User}
use media_hub_oss.Users.{Tables, Driver, user_id_of}
use media_hub_oss.Users.Replies.{
  Reply, refused, replied, Crypt, UpdateMePayload, CreateUserPayload, UpdateUserPayload,
}
use media_hub_oss.Users.Requests.{update_me, post_user, patch_user, remove_user}

pub data Request : Type 0 where
  create : Option CreateUserPayload → Request
  update : Text → Option UpdateUserPayload → Request
  delete : Text → Request
  update_own : Text → Option UpdateMePayload → Request

-- A request on one's own account carries the row that authentication has read; without one it is
-- turned away.
abbrev pub serve_own : Driver → Crypt → Option UpdateMePayload → Option User → Tables → Tables
serve_own d c body none t = t
serve_own d c body (some u) t = (update_me d c body u t).1

-- The tables after a request.
abbrev pub serve : Driver → Crypt → Request → Tables → Tables
serve d c (create body) t = (post_user d c body t).1
serve d c (update id body) t = (patch_user d c id body t).1
serve d c (delete id) t = (remove_user d id t).1
serve d c (update_own id body) t = serve_own d c body (find_by user_id_of id t.users) t

abbrev pub serve_all : Crypt → List (Driver × Request) → Tables → Tables
serve_all c [] t = t
serve_all c ((d, r) ∷ rs) t = serve_all c rs (serve d c r t)

-- Is the answer a success?
abbrev pub accepts : {A : Type 0} → Reply A → Bool
accepts (refused status) = false
accepts (replied a) = true

abbrev pub accepts_own : Driver → Crypt → Option UpdateMePayload → Option User → Tables → Bool
accepts_own d c body none t = false
accepts_own d c body (some u) t = accepts (update_me d c body u t).0

abbrev pub accepted : Driver → Crypt → Request → Tables → Bool
accepted d c (create body) t = accepts (post_user d c body t).0
accepted d c (update id body) t = accepts (patch_user d c id body t).0
accepted d c (delete id) t = accepts (remove_user d id t).0
accepted d c (update_own id body) t = accepts_own d c body (find_by user_id_of id t.users) t

-- Whom a request gives a new password or removes.
abbrev pub signs_out : Request → Option Text
signs_out (create body) = none
signs_out (update id none) = none
signs_out (update id (some payload)) = if is_empty payload.password then none else some id
signs_out (delete id) = some id
signs_out (update_own id body) = some id
