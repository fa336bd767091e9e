-- ===== src/Driver/XboxOne.antt =====
-- Xbox One controllers: source/ControllerLib/Controllers/XboxOneController.cpp.
pub mod Init
use sys_con.Prelude.{
  ℕ, zero, suc, ◌+◌, ◌%◌, ◌^◌, Bool, true, false, not, ◌&&◌, ◌||◌, List, [], ◌∷◌, ◌++◌, length, set,
  leb, ltb, update, ◌==◌, if◌then◌else◌,
}
use sys_con.Prelude.Int.{ℤ, pos, negsuc}
use sys_con.Prelude.Text.{Bytes}
use sys_con.Config.Data.{AnalogBinding, AnalogBinding-discrete}
use sys_con.Controller.Float.{Float}
use sys_con.Controller.Analog.{normalize}
use sys_con.Controller.Mapping.{RawInput}
use sys_con.Driver.Raw.{write_axes}
use sys_con.Controller.Result.{ControllerResult, success, nothing_todo, unexpected_data, is_success}
use sys_con.Driver.Report.{byte, bit, le16, le16s, negated, write_buttons}

-- `xboxone_init_packet`, of the binary kind, which all entries of the table are.
pub record InitPacket : Type 0 where
  pub id_vendor : ℕ
  pub id_product : ℕ
  pub bytes : Bytes

abbrev packet : ℕ → ℕ → Bytes → InitPacket
packet v p b = record { id_vendor = v; id_product = p; bytes = b }

abbrev hori_pdp_ack_id_3a : Bytes
hori_pdp_ack_id_3a = 1 ∷ 32 ∷ 0 ∷ 9 ∷ 0 ∷ 4 ∷ 32 ∷ 58 ∷ 0 ∷ 0 ∷ 0 ∷ 128 ∷ 0 ∷ []

abbrev identify : Bytes
identify = 4 ∷ 32 ∷ 0 ∷ 0 ∷ []

abbrev pdp_ack_id_22 : Bytes
pdp_ack_id_22 = 1 ∷ 32 ∷ 0 ∷ 9 ∷ 0 ∷ 4 ∷ 32 ∷ 34 ∷ 1 ∷ 0 ∷ 0 ∷ 18 ∷ 0 ∷ []

abbrev power_on : Bytes
power_on = 5 ∷ 32 ∷ 0 ∷ 1 ∷ 0 ∷ []

abbrev s_init : Bytes
s_init = 5 ∷ 32 ∷ 0 ∷ 15 ∷ 6 ∷ []

abbrev extra_input_packet_init : Bytes
extra_input_packet_init = 77 ∷ 16 ∷ 0 ∷ 2 ∷ 7 ∷ 0 ∷ []

abbrev pdp_led_on : Bytes
pdp_led_on = 10 ∷ 32 ∷ 0 ∷ 3 ∷ 0 ∷ 1 ∷ 20 ∷ []

abbrev pdp_auth0 : Bytes
pdp_auth0 = 6 ∷ 160 ∷ 0 ∷ 0 ∷ 146 ∷ 2 ∷ []

abbrev pdp_auth : Bytes
pdp_auth = 6 ∷ 32 ∷ 0 ∷ 2 ∷ 1 ∷ 0 ∷ []

abbrev rumblebegin_init : Bytes
rumblebegin_init = 9 ∷ 0 ∷ 0 ∷ 9 ∷ 0 ∷ 15 ∷ 0 ∷ 0 ∷ 29 ∷ 29 ∷ 255 ∷ 0 ∷ 0 ∷ []

abbrev rumbleend_init : Bytes
rumbleend_init = 9 ∷ 0 ∷ 0 ∷ 9 ∷ 0 ∷ 15 ∷ 0 ∷ 0 ∷ 0 ∷ 0 ∷ 0 ∷ 0 ∷ 0 ∷ []

-- `xboxone_init_packets`
abbrev pub init_packets : List InitPacket
init_packets =
    packet 0x0e6f 0x02ea identify
    ∷ packet 0x0e6f 0x02ea pdp_ack_id_22
    ∷ packet 0x0e6f 0x0165 hori_pdp_ack_id_3a
    ∷ packet 0x0f0d 0x0067 hori_pdp_ack_id_3a
    ∷ packet 0 0 power_on
    ∷ packet 0x045e 0x02ea s_init
    ∷ packet 0x045e 0x0b00 s_init
    ∷ packet 0x045e 0x0b00 extra_input_packet_init
    ∷ packet 0x0e6f 0 pdp_led_on
    ∷ packet 0x0f0d 0x01b2 pdp_led_on
    ∷ packet 0x20d6 0xa01a pdp_led_on
    ∷ packet 0x0e6f 0 pdp_auth0
    ∷ packet 0x0e6f 0 pdp_auth
    ∷ packet 0x0f0d 0x01b2 pdp_auth
    ∷ packet 0x20d6 0xa01a pdp_auth
    ∷ packet 0x2dc8 0 pdp_auth
    ∷ packet 0x24c6 0x541a rumblebegin_init
    ∷ packet 0x24c6 0x542a rumblebegin_init
    ∷ packet 0x24c6 0x543a rumblebegin_init
    ∷ packet 0x24c6 0x541a rumbleend_init
    ∷ packet 0x24c6 0x542a rumbleend_init
    ∷ packet 0x24c6 0x543a rumbleend_init
    ∷ []

-- The two `continue`s: whether a packet is for another device.
unfoldable pub is_skipped : ℕ → ℕ → InitPacket → Bool
is_skipped vendor product p =
    not (p.id_vendor == 0) && not (p.id_vendor == vendor)
    || not (p.id_product == 0) && not (p.id_product == product)

-- What was written, and the result. Behind each write that succeeds one reply is read and dropped.
pub record Sent : Type 0 where
  pub written : List Bytes
  pub result : ControllerResult

abbrev pub sent_first : Bytes → Sent → Sent
sent_first b s = record { written = b ∷ s.written; result = s.result }

-- The loop of `SendInitBytes`, from `packet_seq` on. `write` is what writing a packet gives.
module _ (write : Bytes → ControllerResult) where
  unfoldable pub send_packets : ℕ → ℕ → ℕ → List InitPacket → Sent
  unfolding is_skipped
  send_packets vendor product seq [] = record { written = []; result = success }
  send_packets vendor product seq (p ∷ rest) =
      let skipped = send_packets vendor product seq rest in
      let numbered = set p.bytes 2 seq in
      let later = send_packets vendor product ((seq + 1) % 256) rest in
      if is_skipped vendor product p
      then skipped
      else if is_success (write numbered)
      then sent_first numbered later
      else record { written = numbered ∷ []; result = write numbered }

  unfoldable pub send_init_bytes : ℕ → ℕ → ℕ → ℕ → Sent
  unfolding send_packets
  send_init_bytes out_count input_idx vendor product =
      let sent = send_packets vendor product 1 init_packets in
      if leb out_count input_idx then record { written = []; result = success } else sent

  -- `WriteAckModeReport`
  unfoldable write_ack_mode_report : ℕ → ℕ → ℕ → Sent
  write_ack_mode_report out_count input_idx sequence =
      let report = 1 ∷ 32 ∷ sequence ∷ 9 ∷ 0 ∷ 7 ∷ 32 ∷ 2 ∷ 0 ∷ 0 ∷ 0 ∷ 0 ∷ 0 ∷ [] in
      if leb out_count input_idx
      then record { written = []; result = success }
      else record { written = report ∷ []; result = write report }

  module _ (fl : Float) where
    open fl use {F}

    -- `m_rawInput` behind the call is `raw`; it is also what the caller gets on success.
    pub record Parsed : Type 0 where
      pub result : ControllerResult
      pub raw : RawInput fl
      pub written : List Bytes

    -- The fields of `XboxOneButtonData`.
    unfoldable pub button_data : Bytes → RawInput fl → RawInput fl
    unfolding normalize
    button_data b raw = record {
      buttons =
          write_buttons
            ((1, bit b 4 4)
              ∷ (2, bit b 4 5)
              ∷ (3, bit b 4 6)
              ∷ (4, bit b 4 7)
              ∷ (5, bit b 4 0)
              ∷ (6, bit b 4 2)
              ∷ (7, bit b 4 3)
              ∷ (8, bit b 5 4)
              ∷ (9, bit b 5 5)
              ∷ (10, bit b 5 6)
              ∷ (11, bit b 5 7)
              ∷ (32, bit b 5 0)
              ∷ (35, bit b 5 3)
              ∷ (33, bit b 5 1)
              ∷ (34, bit b 5 2)
              ∷ [])
            raw.buttons;
      analog =
          write_axes fl
            ((AnalogBinding.rx, normalize fl (pos (le16 b 6)) (pos 0) (pos 1023))
              ∷ (AnalogBinding.ry, normalize fl (pos (le16 b 8)) (pos 0) (pos 1023))
              ∷ (AnalogBinding.x, normalize fl (le16s b 10) (negsuc 32767) (pos 32767))
              ∷ (AnalogBinding.y, normalize fl (negated (le16s b 12)) (negsuc 32767) (pos 32767))
              ∷ (AnalogBinding.z, normalize fl (le16s b 14) (negsuc 32767) (pos 32767))
              ∷ (AnalogBinding.rz, normalize fl (negated (le16s b 16)) (negsuc 32767) (pos 32767))
              ∷ [])
            raw.analog;
    }

    abbrev failed_with : ControllerResult → RawInput fl → Parsed
    failed_with r raw = record { result = r; raw = raw; written = [] }

    abbrev acknowledged : RawInput fl → Sent → Parsed
    acknowledged raw s = record { result = s.result; raw = raw; written = s.written }

    -- The branch of GIP_CMD_VIRTUAL_KEY.
    unfoldable pub mode_button : ℕ → ℕ → Bytes → RawInput fl → Parsed
    unfolding write_ack_mode_report
    mode_button out_count input_idx b raw =
        let raw' = record raw {
          buttons = write_buttons ((12, not (byte b 4 == 0)) ∷ []) raw.buttons;
        } in
        if byte b 1 == 48
        then acknowledged raw' (write_ack_mode_report out_count input_idx (byte b 2))
        else record { result = success; raw = raw'; written = [] }

    -- `ParseData`
    unfoldable pub parse_data : ℕ → ℕ → Bytes → ℕ → RawInput fl → Parsed
    unfolding button_data mode_button
    parse_data out_count input_idx b size raw =
        if byte b 0 == 32
        then if ltb size 18
          then failed_with unexpected_data raw
          else record { result = success; raw = button_data b raw; written = [] }
        else if byte b 0 == 7
        then if ltb size 6
          then failed_with unexpected_data raw
          else mode_button out_count input_idx b raw
        else failed_with nothing_todo raw
