-- ===== src/Web/Status.antt =====
-- src/WebHandler.cpp: the documents that the requests "status" and "info" send.
use Prim.Native.String.{String}
use text.Mathlib.Text.{◌==◌}
use byte_waterlevel.Prelude.{
  ◌≡◌, refl, ◌∙◌, ap, ◌/◌, inl, inr, arith, true, List, [], ◌∷◌, if◌then◌else◌,
}
use byte_waterlevel.Prelude.Int.{pos}
use byte_waterlevel.Settings.{version}
use byte_waterlevel.Json.{JsonLib, IsDocument, IsFresh, HasElements}
use byte_waterlevel.Files.{get_config}
use byte_waterlevel.Device.Relays.{get_state}
use byte_waterlevel.Ota.{has_update}
use byte_waterlevel.World.{World, send, answer}
use byte_waterlevel.Web.{
  Ambient, Request, status_document, info_document, handle_api_call, need_auth, api,
}
use byte_waterlevel.Web.Dispatch.{api-admitted}

module _ {F : Type 0} (J : JsonLib F) where
  open J use {Json, member, set_member, set_element, new_document, is_object}
  open J use {of_bool, of_int, of_float, of_string}

  -- Members with their values, in the order of their assignment: the last one for a key counts.
  abbrev Table : Type 0
  Table = List (String × Json)

  abbrev assign : Table → Json → Json
  assign [] j = j
  assign ((k, v) ∷ rest) j = assign rest (set_member j k v)

  abbrev found : Table → String → Json → Json
  found [] i other = other
  found ((k, v) ∷ rest) i other = found rest i (if k == i then v else other)

  -- What "status" reports behind its type. `channels` is the member before the two assignments to it.
  abbrev status_rows : (channels : Json) → Ambient F → World F Json → Table
  status_rows channels env w =
      let first = set_element channels 0 (of_bool (get_state (pos 1) w.device)) in
      ("channels", set_element first 1 (of_bool (get_state (pos 2) w.device)))
      ∷ ("adc", of_float w.device.latest_voltage)
      ∷ ("current", of_float w.device.scan_current)
      ∷ ("level", of_float w.device.scan_water_level)
      ∷ ("volume", of_float w.device.scan_water_volume)
      ∷ ("cpu", of_float w.device.scan_temperature)
      ∷ ("frequency", of_int (pos env.cpu_frequency))
      ∷ ("rssi", of_float env.rssi)
      ∷ ("mqtt", of_bool env.mqtt_connected)
      ∷ ("up", of_int (pos (env.now / 1000)))
      ∷ []

  abbrev status_table : Ambient F → World F Json → Table
  status_table env w =
      ("type", of_string "success") ∷ status_rows (member new_document "channels") env w

  abbrev info_rows : Ambient F → Table
  info_rows env =
      ("firmware", of_string version)
      ∷ ("update", of_bool (has_update env.wifi_connected env.newer_firmware))
      ∷ ("type", of_string "success")
      ∷ []

  -- What "info" reports.
  abbrev info_table : Ambient F → World F Json → Table
  info_table env w = ("config", get_config w.files) ∷ info_rows env

  module _ (laws : IsDocument J) where
    member-assign :
        (t : Table) (j : Json) (i : String)
        → is_object j ≡ true
        → member (assign t j) i ≡ found t i (member j i)
    member-assign [] j i o = refl
    member-assign ((k, v) ∷ rest) j i o =
        member-assign rest (set_member j k v) i (laws.is_object-set_member j k v o)
        ∙ ap (found rest i) (laws.member-set_member j k i v o)

    module _ (fresh : IsFresh J) where
      member-assign-new :
          (k i : String) (v : Json) (t : Table)
          → member (assign ((k, v) ∷ t) new_document) i
            ≡ found ((k, v) ∷ t) i (member new_document i)
      member-assign-new k i v t =
          member-assign t (set_member new_document k v) i
            (fresh.is_object-set_member-new_document k v)
          ∙ ap (found t i) (fresh.member-set_member-new_document k i v)

      member-status_document :
          (env : Ambient F) (w : World F Json) (i : String)
          → member (status_document J env w) i
            ≡ found (status_table env w) i (member new_document i)
      unfolding status_document
      member-status_document env w i =
          let success = of_string "success" in
          let before = member (set_member new_document "type" success) "channels" in
          member-assign-new "type" i success (status_rows before env w)
          ∙ ap (λ c. found (("type", success) ∷ status_rows c env w) i (member new_document i))
              (fresh.member-set_member-new_document "type" "channels" success)

      member-info_document :
          (env : Ambient F) (w : World F Json) (i : String)
          → member (info_document J env w) i ≡ found (info_table env w) i (member new_document i)
      unfolding info_document
      member-info_document env w i =
          member-assign-new "config" i (get_config w.files) (info_rows env)

      -- The array of the channels.
      channels-status_document :
          (arrays : HasElements J) (env : Ambient F) (w : World F Json)
          → let channels = member (status_document J env w) "channels" in
            (arrays.element channels 0 ≡ of_bool w.device.relay1)
            × (arrays.element channels 1 ≡ of_bool w.device.relay2)
      unfolding get_state
      channels-status_document arrays env w =
          let one = of_bool w.device.relay1 in
          let two = of_bool w.device.relay2 in
          let missing = member new_document "channels" in
          let null = inr (arrays.is_null-member-new_document "channels") in
          let array = inl (arrays.is_array-set_element missing 0 one null) in
          let first = set_element missing 0 one in
          rw (member-status_document env w "channels") (
            arrays.element-set_element_other first 1 0 two (λ e. omega (arith, e)) array
                ∙ arrays.element-set_element missing 0 one null,
            arrays.element-set_element first 1 two array,
          )

      -- An admitted request of the type "status" is answered by 200 and the text of one document, and
      -- changes nothing else. The document has the members of `status_table`, and under every other
      -- key what a new document has: the channels, the values of the last scan, the voltage, the
      -- connection and the seconds since the start, as numbers and Booleans. The channels are an array
      -- of the states of both relays, as Booleans.
      pub api_status :
          (arrays : HasElements J) (env : Ambient F) (r : Request Json) (w : World F Json)
          (key : String)
          → (need_auth J r w).0 ≡ true
          → J.is_string (member r.body "type") ≡ true
          → J.as_string (member r.body "type") ≡ "status"
          → let document = status_document J env w in
            (api J env r w ≡ send (answer 200 "application/json" (J.serialize document)) w)
            × (member document key ≡ found (status_table env w) key (member new_document key))
            × (arrays.element (member document "channels") 0 ≡ of_bool w.device.relay1)
            × (arrays.element (member document "channels") 1 ≡ of_bool w.device.relay2)
      unfolding handle_api_call
      api_status arrays env r w key ok typed is = (
        api-admitted J env r w ok typed ∙ rw is refl,
        member-status_document env w key,
        (channels-status_document arrays env w).0,
        (channels-status_document arrays env w).1,
      )

      -- An admitted request of the type "info" is answered by 200 and the text of one document, and
      -- changes nothing else. The document has the members of `info_table`, the whole configuration
      -- among them, and under every other key what a new document has.
      api_info :
          (env : Ambient F) (r : Request Json) (w : World F Json) (key : String)
          → (need_auth J r w).0 ≡ true
          → J.is_string (member r.body "type") ≡ true
          → J.as_string (member r.body "type") ≡ "info"
          → let document = info_document J env w in
            (api J env r w ≡ send (answer 200 "application/json" (J.serialize document)) w)
            × (member document key ≡ found (info_table env w) key (member new_document key))
      unfolding handle_api_call
      api_info env r w key ok typed is =
          (api-admitted J env r w ok typed ∙ rw is refl, member-info_document env w key)
