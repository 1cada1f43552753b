-- ===== src/Data/Factory.antt =====
-- include/data/parse_data_factory.h, and src/package/consumer/XBusinessHandler.cpp as far as it reads a message.
use business.Base.{Option, none, some, if◌then◌else◌}
use business.Base.Int.{ℤ, pos, eq_ℤ}
use business.Base.Text.{Text, codes}
use business.Json.{Parse, got, ◌>>=◌, demand, JsonLib, parse_json, int_field}
use business.Data.{data_of}
use business.Data.Event.{BusinessData, parse_business, parse_xiashun_business}
use business.Data.Capture.{CaptureData, parse_capture_data, parse_xiashun_capture}
use business.Data.Screenshot.{ScreenshotData, parse_screenshot_data}

-- `PayloadType`
pub data PayloadType : Type 0 where
  screenshot xiashun_business xiashun_capture trace business_event : PayloadType

unfoldable pub payload_type : ℤ → Option PayloadType
payload_type n =
    if eq_ℤ n (pos 32)
    then some business_event
    else if eq_ℤ n (pos 8)
    then some trace
    else if eq_ℤ n (pos 1)
    then some screenshot
    else if eq_ℤ n (pos 128)
    then some xiashun_business
    else if eq_ℤ n (pos 64)
    then some xiashun_capture
    else none

pub data ParsedData : Type 0 where
  of_event : BusinessData → ParsedData
  of_capture : CaptureData → ParsedData
  of_screenshot : ScreenshotData → ParsedData

module _ (J : JsonLib) where
  -- `ParseDataFactory::ParseData`; a null result is refused.
  unfoldable pub parse_data : Text → Parse (PayloadType × J.Value)
  unfolding codes parse_json data_of payload_type
  parse_data payload = do
    total_jv ← demand (parse_json J payload)
    data_jv ← data_of J total_jv
    ptype ← int_field J data_jv (codes "ptype")
    number ← demand ptype
    type ← demand (payload_type number)
    got (type, total_jv)

  -- `pKafkaData->parse()`
  unfoldable pub parse : ℤ → PayloadType × J.Value → Parse ParsedData
  unfolding parse_business parse_xiashun_business parse_capture_data parse_xiashun_capture
      parse_screenshot_data
  parse unset (business_event, total_jv) = do d ← parse_business J unset total_jv; got (of_event d)
  parse unset (xiashun_business, total_jv) = do
    d ← parse_xiashun_business J unset total_jv
    got (of_event d)
  parse unset (trace, total_jv) = do d ← parse_capture_data J unset total_jv; got (of_capture d)
  parse unset (xiashun_capture, total_jv) = do
    d ← parse_xiashun_capture J unset total_jv
    got (of_capture d)
  parse unset (screenshot, total_jv) = do
    d ← parse_screenshot_data J unset total_jv
    got (of_screenshot d)

  -- What `CXBusinessHandler::handle` makes of a payload before it makes a session.
  unfoldable pub read_message : ℤ → Text → Parse ParsedData
  unfolding parse_data parse
  read_message unset payload = do found ← parse_data payload; parse unset found
