-- ===== src/Camera/Ownership/Allocation/Tests.antt =====
-- The allocation of audio streams in winrt/Projection.cpp, on concrete exchanges with the camera.
use matter_winrt.Base.{◌≡◌, refl, [], ok, err}
use matter_winrt.Camera.Ownership.{Key, find}
use matter_winrt.Camera.Ownership.Slot.{view, free}
use matter_winrt.Camera.Ownership.Invariant.{empty-Inv}
use matter_winrt.Camera.Ownership.Allocation.{
  other, responded, Allocation, allocate_camera_audio_stream,
}
use matter_winrt.Camera.Ownership.Allocation.Settling.{
  At, settled, returns, value, allocation_settles,
}

abbrev door : Key
door = record { node = 1; endpoint = 2 }

-- The stream is allocated, its readback fails, and so does its release.
abbrev unlucky : Allocation
unlucky = record {
  prepared = ok tt;
  invoked = responded 7;
  readback = err (other 1);
  deallocation = err (other 2);
}

door_free : view (find door []) ≡ free
unfolding view find
door_free = refl

allocation_settles_example :
    (value (allocate_camera_audio_stream unlucky door []).0 ≡ returns unlucky (responded 7))
    × At door (settled unlucky (responded 7)) [] (allocate_camera_audio_stream unlucky door []).1
allocation_settles_example = allocation_settles unlucky door [] empty-Inv door_free refl refl
