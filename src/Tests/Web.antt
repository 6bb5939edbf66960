-- ===== src/Tests/Web.antt =====
-- Requests to the API.
use byte_waterlevel.Web.Status.{api_status}
use byte_waterlevel.Json.{HasElements}
use byte_waterlevel.Json.Tree.{tree-IsDocument, tree-IsFresh, bool, str, float}
use byte_waterlevel.Json.Tree.Elements.{tree-HasElements}
use byte_waterlevel.World.{answer, send}
use byte_waterlevel.Prelude.{◌≡◌, refl, Bool, false, some}
use byte_waterlevel.Prelude.Int.{ℤ}
use byte_waterlevel.Web.{duration_of, status_document, info_document, need_auth, api}
use byte_waterlevel.Web.Answers.{sent, is_malformed_relais, sent-api}
use byte_waterlevel.Web.Relays.{IsRelaisCall}
use byte_waterlevel.Tests.Data.{
  lib, open_config, world_with, ambient, relais_body, asking, status_body,
}

-- "status" reports the cached level.
status_level :
    lib.member (status_document lib ambient (world_with open_config)) "level" ≡ float (some 0)
unfolding status_document
status_level = refl

info_version :
    lib.member (info_document lib ambient (world_with open_config)) "firmware" ≡ str "1.5.0"
unfolding info_document
info_version = refl

sent-api_example : sent (api lib ambient (asking status_body) (world_with open_config)) ≡ 1
unfolding need_auth is_malformed_relais
sent-api_example = sent-api lib ambient (asking status_body) (world_with open_config)

pub relais_body-IsRelaisCall :
    (channel : ℤ) (state : Bool) (duration : ℤ)
    → IsRelaisCall lib
        (asking (relais_body channel state duration))
        (world_with open_config)
        channel
        state
        (some duration)
unfolding need_auth duration_of
relais_body-IsRelaisCall channel state duration = record {
  admitted = refl;
  type_is_string = refl;
  type_is = refl;
  channel_is_int = refl;
  channel_is = refl;
  state_is_bool = refl;
  state_is = refl;
  duration_is = refl;
}

abbrev arrays : HasElements lib
arrays = tree-HasElements open_config

api_status_example :
    let w = world_with open_config in
    let document = status_document lib ambient w in
    (api lib ambient (asking status_body) w
      ≡ send (answer 200 "application/json" (lib.serialize document)) w)
    × (lib.member document "level" ≡ float (some 0))
    × (arrays.element (lib.member document "channels") 0 ≡ bool false)
    × (arrays.element (lib.member document "channels") 1 ≡ bool false)
unfolding need_auth
api_status_example =
    api_status lib (tree-IsDocument open_config) (tree-IsFresh open_config) arrays ambient
      (asking status_body) (world_with open_config) "level" refl refl refl
