-- ===== src/ControlChannel/Responses.antt =====
-- The methods of `ControlChannelService` (src/front-end/src/infrastructure/transport/control-channel-service.ts):
-- what each makes of the response that its request is resolved with. The message of a response is its
-- bytes, next to the two fields of StartCameraStreamResponse that are read.
use learning_cuda.Base.{
  ℕ, ◌≡◌, Bool, true, List, String, Result, ok, err, ◌==◌, if◌then◌else◌, arith,
}

-- The cases of a ControlRequest, and of the ControlResponse that answers it.
pub data Method : Type 0 where
  list_filters_case get_version_case get_accelerator_capabilities_case start_camera_stream_case
        stop_camera_stream_case capture_frame_case list_captured_images_case get_captured_image_case
        delete_captured_image_case :
      Method

pub record Message : Type 0 where
  pub accepted : Bool
  pub reason : String
  pub body : List ℕ

-- response.payload: unset, an error with its message, or the message of a case
pub data Payload : Type 0 where
  unset : Payload
  error : String → Payload
  answer : Method → Message → Payload

-- What a method throws.
pub data ControlError : Type 0 where
  failed : Method → String → ControlError
  unexpected_case : Method → Payload → ControlError
  rejected : String → ControlError

-- The field number of the case in the ControlRequest message.
abbrev case_number : Method → ℕ
case_number list_filters_case = 10
case_number get_version_case = 11
case_number get_accelerator_capabilities_case = 12
case_number start_camera_stream_case = 13
case_number stop_camera_stream_case = 14
case_number capture_frame_case = 15
case_number list_captured_images_case = 16
case_number get_captured_image_case = 17
case_number delete_captured_image_case = 18

-- The two checks that every method makes.
expect_case : Method → Payload → Result ControlError Message
expect_case m unset = err (unexpected_case m unset)
expect_case m (error message) = err (failed m message)
expect_case m (answer m' value) =
    if case_number m' == case_number m then ok value else err (unexpected_case m (answer m' value))

-- !response.payload.value.accepted
check_accepted : Result ControlError Message → Result ControlError Message
check_accepted (err e) = err e
check_accepted (ok value) = if value.accepted then ok value else err (rejected value.reason)

unfoldable pub list_filters : Payload → Result ControlError Message
unfolding expect_case
list_filters p = expect_case list_filters_case p

unfoldable pub get_version : Payload → Result ControlError Message
unfolding expect_case
get_version p = expect_case get_version_case p

unfoldable pub get_accelerator_capabilities : Payload → Result ControlError Message
unfolding expect_case
get_accelerator_capabilities p = expect_case get_accelerator_capabilities_case p

unfoldable pub start_camera_stream : Payload → Result ControlError Message
unfolding expect_case check_accepted
start_camera_stream p = check_accepted (expect_case start_camera_stream_case p)

unfoldable pub stop_camera_stream : Payload → Result ControlError Message
unfolding expect_case
stop_camera_stream p = expect_case stop_camera_stream_case p

unfoldable pub capture_frame : Payload → Result ControlError Message
unfolding expect_case
capture_frame p = expect_case capture_frame_case p

unfoldable pub list_captured_images : Payload → Result ControlError Message
unfolding expect_case
list_captured_images p = expect_case list_captured_images_case p

unfoldable pub get_captured_image : Payload → Result ControlError Message
unfolding expect_case
get_captured_image p = expect_case get_captured_image_case p

unfoldable pub delete_captured_image : Payload → Result ControlError Message
unfolding expect_case
delete_captured_image p = expect_case delete_captured_image_case p

-- The method of a case.
abbrev pub read_response : Method → Payload → Result ControlError Message
read_response list_filters_case p = list_filters p
read_response get_version_case p = get_version p
read_response get_accelerator_capabilities_case p = get_accelerator_capabilities p
read_response start_camera_stream_case p = start_camera_stream p
read_response stop_camera_stream_case p = stop_camera_stream p
read_response capture_frame_case p = capture_frame p
read_response list_captured_images_case p = list_captured_images p
read_response get_captured_image_case p = get_captured_image p
read_response delete_captured_image_case p = delete_captured_image p

same_case : (m m' : Method) → case_number m' ≡ case_number m → m' ≡ m
same_case m m' e = ground arith

expect_case-ok :
    (m : Method) (p : Payload) (value : Message) → expect_case m p ≡ ok value → p ≡ answer m value
unfolding expect_case
expect_case-ok m unset value h = cc (h)
expect_case-ok m (error s) value h = cc (h)
expect_case-ok m (answer m' v) value h = ground (arith, same_case m m')

check_accepted-ok :
    (r : Result ControlError Message) (value : Message)
    → check_accepted r ≡ ok value
    → (r ≡ ok value) × (value.accepted ≡ true)
unfolding check_accepted
check_accepted-ok (err e) value h = cc (h)
check_accepted-ok (ok v) value h = ground arith

-- Whatever the method: it returns a message only where the response has the case of the method and
-- carries that message, and `startCameraStream` only where the camera was accepted.
pub returns_own_case :
    (m : Method) (p : Payload) (value : Message)
    → read_response m p ≡ ok value
    → (p ≡ answer m value) × (m ≡ start_camera_stream_case → value.accepted ≡ true)
unfolding list_filters get_version get_accelerator_capabilities start_camera_stream
    stop_camera_stream capture_frame list_captured_images get_captured_image delete_captured_image
returns_own_case start_camera_stream_case p value h =
    let (inner, there) = check_accepted-ok (expect_case start_camera_stream_case p) value h in
    (expect_case-ok start_camera_stream_case p value inner, λ e. there)
returns_own_case list_filters_case p value h =
    (expect_case-ok list_filters_case p value h, λ e. cc (e))
returns_own_case get_version_case p value h =
    (expect_case-ok get_version_case p value h, λ e. cc (e))
returns_own_case get_accelerator_capabilities_case p value h =
    (expect_case-ok get_accelerator_capabilities_case p value h, λ e. cc (e))
returns_own_case stop_camera_stream_case p value h =
    (expect_case-ok stop_camera_stream_case p value h, λ e. cc (e))
returns_own_case capture_frame_case p value h =
    (expect_case-ok capture_frame_case p value h, λ e. cc (e))
returns_own_case list_captured_images_case p value h =
    (expect_case-ok list_captured_images_case p value h, λ e. cc (e))
returns_own_case get_captured_image_case p value h =
    (expect_case-ok get_captured_image_case p value h, λ e. cc (e))
returns_own_case delete_captured_image_case p value h =
    (expect_case-ok delete_captured_image_case p value h, λ e. cc (e))
